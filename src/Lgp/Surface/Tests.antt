-- ===== src/Lgp/Surface/Tests.antt =====
-- The theorems on the surface table of src/lgp-compositor/scene/surface.c at concrete inputs.
use mahina_os.Prelude.{
  ℕ, zero, suc, subst, ◌∷◌, ◌+ℤ◌, ◌+◌, ◌≡◌, refl, ◌&&◌, leb, true, some, [], get_elem?, pos, negsuc,
  arith,
}
use mahina_os.Lgp.Client.{Client}
use mahina_os.Lgp.Messages.{Create, Commit}
use mathlib.Core.Option.{some-injective}
use mahina_os.Lgp.Scene.Picture.{picture, IsPlaced}
use mahina_os.Lgp.Scene.Painted.{composite_paints}
use mahina_os.Lgp.Scene.{
  Drawn, Memory, layer_order, void_pixel, Cursor, Frame, Screen, drawn, composite,
}
use mahina_os.Lgp.Scene.Safe.{composite_safe}
use mahina_os.Lgp.Surface.{
  ok, Surface, cleared, Manager, init, create, destroy, commit, destroy_for_client, slot_at,
  system_chrome, overlay_surface,
}
use mahina_os.Lgp.Surface.Valid.{IsSurface, IsValid, layer_fits}
use mahina_os.Lgp.Surface.Ops.{Created, create_decides, Destroyed, destroy_decides}
use mahina_os.Lgp.Surface.Commits.{Committed, commit_decides}
use mahina_os.Lgp.Surface.Steps.{Reach, start, next, creates, commits, leaves, reach-IsValid}
use mahina_os.Lgp.Surface.Guard.{other_slots_unchanged, has_cap_for, create_needs_cap}
use mahina_os.Lgp.Surface.Mappings.{
  mapped_count, unmaps, mapped_by, new_mapping, commit_balances, leave_balances,
}

abbrev visitor : Client
visitor = record {
  fd = pos 5;
  uid = 1000;
  session_id = 1;
  caps_granted = 2;
  hello_done = true;
  rx_buf = [];
  pending_fds = [];
}

abbrev other : Client
other = record visitor { session_id = 2 }

-- A screen of 8 by 4 pixels.
abbrev small : Screen
small = record { width = 8; height = 4; pitch = 32 }

-- A window of 4 by 2 pixels at (-3, 7), and its buffer.
abbrev window : Create
window = record { surface_type = 4; x = negsuc 2; y = pos 7; width = 4; height = 2; layer = 100 }

abbrev buffer : Commit
buffer = record {
  surface_id = 1;
  width = 4;
  height = 2;
  stride = 16;
  pixel_format = 0x34325241;
  byte_size = 32;
}

-- The table after a creation, and after a commit that is mapped at 4096.
abbrev one : Manager
one = (create init visitor window).0

abbrev filled_one : Manager
filled_one = (commit one visitor buffer (pos 9) (some 4096)).0

abbrev reached : Reach filled_one
reached =
    next visitor (next visitor start (creates init window)) (commits one buffer (pos 9) (some 4096))

one_created : (create init visitor window).1 ≡ ok
unfolding create init
one_created = refl

buffer_stored : (commit one visitor buffer (pos 9) (some 4096)).1 ≡ ok
unfolding commit create init
buffer_stored = refl

reach-IsValid_example : IsValid filled_one
reach-IsValid_example = reach-IsValid reached

create_decides_example : Created init visitor window (create init visitor window)
create_decides_example = create_decides init visitor window

destroy_decides_example : Destroyed one visitor 1 (destroy one visitor 1)
destroy_decides_example = destroy_decides one visitor 1

commit_decides_example :
    Committed one visitor buffer (pos 9) (some 4096) (commit one visitor buffer (pos 9) (some 4096))
commit_decides_example = commit_decides one visitor buffer (pos 9) (some 4096)

commit_balances_example :
    let (after, status, effects) = commit one visitor buffer (pos 9) (some 4096) in
    unmaps 4096 32 effects + mapped_count 4096 32 after.surfaces
    ≡ new_mapping 4096 32 status (some 4096) 32 + mapped_count 4096 32 one.surfaces
commit_balances_example = commit_balances one visitor buffer (pos 9) (some 4096) 4096 32

leave_balances_example :
    let (after, effects) = destroy_for_client filled_one visitor in
    (unmaps 4096 32 effects ≡ mapped_by 1 4096 32 filled_one.surfaces)
    × (unmaps 4096 32 effects + mapped_count 4096 32 after.surfaces
        ≡ mapped_count 4096 32 filled_one.surfaces)
leave_balances_example = leave_balances filled_one visitor 4096 32

create_needs_cap_example :
    (has_cap_for visitor 4 ≡ true)
    × (layer_fits 4 100 ≡ true)
    × (leb system_chrome 4 && leb 4 overlay_surface ≡ true)
unfolding create init
create_needs_cap_example = create_needs_cap init visitor window refl

abbrev first_slot : Surface
first_slot = slot_at one 0

other_slots_unchanged_example :
    get_elem? (destroy_for_client one other).0.surfaces 0 ≡ some first_slot
unfolding create init
other_slots_unchanged_example =
    other_slots_unchanged other (leaves one) 0 first_slot refl refl (λ e. omega arith)

abbrev middle : Cursor
middle = record { x = pos 4; y = pos 2; screen_width = 8; screen_height = 4 }

composite_safe_example :
    (g : Frame) × (composite small (λ map at. 0) filled_one middle (λ o. 0) ≡ drawn g)
composite_safe_example =
    composite_safe small (λ map at. 0) filled_one middle (λ o. 0) (reach-IsValid reached)
      (omega arith) (omega arith) (omega arith) (omega arith)

-- The window alone, over a memory of white pixels, with the cursor in a corner.
abbrev painted : Surface
painted = record cleared {
  in_use = true;
  id = 1;
  owner = 1;
  surface_type = 4;
  x = negsuc 2;
  y = pos 1;
  width = 8;
  height = 2;
  layer = 100;
  stride = 32;
  pixel_format = 0x34325258;
  buffer_size = 64;
  buffer_map = some 4096;
}

painted-IsSurface : IsSurface painted
painted-IsSurface = record {
  sized = λ h. (omega arith, omega arith, omega arith, omega arith);
  layered = λ h. refl;
  mapped = λ map h. (refl, omega arith, omega arith);
  numbered = λ h. (omega arith, omega arith);
}

abbrev lone : Manager
lone = record { next_surface_id = 2; surfaces = painted ∷ [] }

lone-IsPlaced : (i : ℕ) (s : Surface) → get_elem? lone.surfaces i ≡ some s → IsPlaced s
lone-IsPlaced zero s e =
    subst IsPlaced (some-injective painted s e)
      (record { surface = painted-IsSurface; low = (omega arith, omega arith) })
lone-IsPlaced (suc i) s e = cc

abbrev white : Memory
white map at = 0xffffff

abbrev corner : Cursor
corner = record { x = pos 7; y = pos 3; screen_width = 8; screen_height = 4 }

abbrev frame_of : Drawn → Frame
frame_of (drawn g) = g
frame_of d = λ o. 0

lone_picture : picture white layer_order lone.surfaces 4 2 void_pixel ≡ 0xffffff
unfolding ◌+ℤ◌
lone_picture = refl

composite_paints_example :
    (frame_of (composite small white lone corner (λ o. 0))) 80
    ≡ picture white layer_order lone.surfaces 4 2 void_pixel
unfolding composite
composite_paints_example =
    composite_paints small white lone corner (λ o. 0)
      (frame_of (composite small white lone corner (λ o. 0))) 4 2 lone-IsPlaced (omega arith)
      (omega arith, omega arith) (omega arith) (omega arith) refl refl
