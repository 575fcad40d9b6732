-- ===== src/Lgp/Surface/Valid.antt =====
-- What holds of the surface table of src/lgp-compositor/scene/surface.c between two requests.
use mathlib.Core.Option.{some-injective}
use mahina_os.Prelude.{
  ℕ, zero, suc, ◌*◌, ◌^◌, ◌≤◌, ◌<◌, ◌≡◌, ◌∙◌, refl, sym, subst, Bool, true, some, ◌==◌, ◌&&◌, ◌||◌,
  ltb, leb, if◌then◌else◌, replicate, get_elem?, set, length, length-set, get_elem?-set, inl, inr,
  Bool-cases, Option-cases, arith,
}
use mahina_os.Lgp.Client.{Client}
use mahina_os.Lgp.Messages.{Create}
use mahina_os.Lgp.Surface.{
  ok, Surface, cleared, Manager, init, validate_request, slot_at, surface_max, luna_island,
  application_window, canvas_surface, layer_wallpaper, layer_application, layer_shell,
  layer_luna_island, layer_system_modal,
}

-- The layers that a surface type may be on.
abbrev pub layer_fits : ℕ → ℕ → Bool
layer_fits type layer =
    if type == application_window
    then layer == layer_application
    else if type == canvas_surface
    then (layer == layer_application) || (layer == layer_wallpaper)
    else if type == luna_island
    then layer == layer_luna_island
    else leb layer_shell layer && leb layer layer_system_modal

pub record IsSurface (s : Surface) : Type 0 where
  pub sized :
      s.in_use ≡ true → (0 < s.width) × (s.width ≤ 16384) × (0 < s.height) × (s.height ≤ 16384)
  pub layered : s.in_use ≡ true → layer_fits s.surface_type s.layer ≡ true
  pub mapped :
      (map : ℕ)
      → s.buffer_map ≡ some map
      → (s.in_use ≡ true) × (s.width * 4 ≤ s.stride) × (s.stride * s.height ≤ s.buffer_size)
  pub numbered : s.in_use ≡ true → (0 < s.id) × (s.id < 2 ^ 32)

pub record IsValid (m : Manager) : Type 0 where
  pub slots : length m.surfaces ≡ surface_max
  pub next_ok : (0 < m.next_surface_id) × (m.next_surface_id < 2 ^ 32)
  pub each : (i : ℕ) (s : Surface) → get_elem? m.surfaces i ≡ some s → IsSurface s

pub cleared-IsSurface : IsSurface cleared
cleared-IsSurface = record {
  sized = λ h. cc;
  layered = λ h. cc;
  mapped = λ map h. cc;
  numbered = λ h. cc;
}

get-replicate : (n i : ℕ) (s : Surface) → get_elem? (replicate n cleared) i ≡ some s → cleared ≡ s
get-replicate zero i s h = cc
get-replicate (suc n) zero s h = cc
get-replicate (suc n) (suc i) s h = get-replicate n i s h

-- lgp_surface_manager_init makes a valid table.
pub init-IsValid : IsValid init
unfolding init
init-IsValid = record {
  slots = refl;
  next_ok = omega arith;
  each = λ i s h. subst IsSurface (get-replicate surface_max i s h) cleared-IsSurface;
}

-- A write of a good surface keeps a valid table valid.
pub set-IsValid :
    (m : Manager) (next i : ℕ) (s : Surface)
    → IsValid m
    → (0 < next) × (next < 2 ^ 32)
    → IsSurface s
    → IsValid (record { next_surface_id = next; surfaces = set m.surfaces i s })
set-IsValid m next i s v n g = record {
  slots = length-set m.surfaces i s ∙ v.slots;
  next_ok = n;
  each = λ j t h. elim (Bool-cases (ltb i (length m.surfaces) && (i == j))) [
    | inl here ↦
        subst IsSurface (some-injective s t (rw here at (sym (get_elem?-set m.surfaces i j s) ∙ h)))
          g
    | inr away ↦ v.each j t (rw away at (sym (get_elem?-set m.surfaces i j s) ∙ h))
  ];
}

-- The slot that an index names: a slot of the table, or a cleared one.
pub slot_at-IsSurface : (m : Manager) (i : ℕ) → IsValid m → IsSurface (slot_at m i)
slot_at-IsSurface m i v = elim (Option-cases (get_elem? m.surfaces i)) [
  | inl e ↦ rw (e, slot_at) cleared-IsSurface
  | inr (s, e) ↦ rw (e, slot_at) (v.each i s e)
]

-- What an accepted request satisfies.
pub accepted :
    (client : Client) (p : Create)
    → validate_request client p ≡ ok
    → (0 < p.width)
      × (p.width ≤ 16384)
      × (0 < p.height)
      × (p.height ≤ 16384)
      × (layer_fits p.surface_type p.layer ≡ true)
unfolding validate_request
accepted client p h = ground arith
