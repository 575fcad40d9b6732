-- ===== src/Lgp/Surface.antt =====
-- The surface table of src/lgp-compositor/scene/surface.c.
pub mod Valid
pub mod Ops
pub mod Commits
pub mod Steps
pub mod Guard
pub mod Mappings
mod Tests
use mahina_os.Prelude.{
  ℕ, zero, suc, ◌+◌, ◌-◌, ◌*◌, ◌/◌, ◌%◌, ◌^◌, Bool, true, false, Option, none, some, List, [], ◌∷◌,
  ◌++◌, ◌==◌, ◌&&◌, ◌||◌, not, ltb, leb, if◌then◌else◌, replicate, get_elem?, set, ℤ, pos, negsuc,
  ltb_ℤ,
}
use mahina_os.Lgp.Client.{Client, has_bit, cap_canvas_surface, cap_luna_island, cap_layer_shell}
use mahina_os.Lgp.Messages.{Create, Commit}

-- LGP_SURFACE_STATUS_ codes.
pub data Status : Type 0 where
  ok invalid denied no_memory not_found bad_buffer : Status

-- LGP_SURFACE_ types, LGP_LAYER_ values, pixel formats and the size of the table.
abbrev pub system_chrome : ℕ
system_chrome = 1

abbrev pub luna_island : ℕ
luna_island = 2

abbrev pub shell_surface : ℕ
shell_surface = 3

abbrev pub application_window : ℕ
application_window = 4

abbrev pub canvas_surface : ℕ
canvas_surface = 5

abbrev pub overlay_surface : ℕ
overlay_surface = 6

abbrev pub layer_wallpaper : ℕ
layer_wallpaper = 0

abbrev pub layer_application : ℕ
layer_application = 100

abbrev pub layer_shell : ℕ
layer_shell = 200

abbrev pub layer_luna_island : ℕ
layer_luna_island = 500

abbrev pub layer_system_modal : ℕ
layer_system_modal = 600

abbrev pub xrgb8888 : ℕ
xrgb8888 = 0x34325258

abbrev pub argb8888 : ℕ
argb8888 = 0x34325241

abbrev pub surface_max : ℕ
surface_max = 64

-- lgp_surface_t. `buffer_map` is the address of the mapping, NULL being `none`.
pub record Surface : Type 0 where
  pub in_use : Bool
  pub id : ℕ
  pub owner : ℕ
  pub surface_type : ℕ
  pub x : ℤ
  pub y : ℤ
  pub width : ℕ
  pub height : ℕ
  pub layer : ℕ
  pub stride : ℕ
  pub pixel_format : ℕ
  pub buffer_size : ℕ
  pub buffer_map : Option ℕ
  pub wm_state : ℕ

-- memset(surface, 0, sizeof(*surface))
abbrev pub cleared : Surface
cleared = record {
  in_use = false;
  id = 0;
  owner = 0;
  surface_type = 0;
  x = pos 0;
  y = pos 0;
  width = 0;
  height = 0;
  layer = 0;
  stride = 0;
  pixel_format = 0;
  buffer_size = 0;
  buffer_map = none;
  wm_state = 0;
}

pub record Manager : Type 0 where
  pub next_surface_id : ℕ
  pub surfaces : List Surface

-- What an operation does to descriptors and mappings.
pub data Effect : Type 0 where
  close_fd : ℤ → Effect
  unmap : ℕ → ℕ → Effect

-- lgp_surface_manager_init.
unfoldable pub init : Manager
init = record { next_surface_id = 1; surfaces = replicate surface_max cleared }

-- lgp_surface_release: the mapping that is given back; the slot is cleared by its callers' `set`.
unfoldable pub release : Surface → List Effect
release s = elim s.buffer_map [ none ↦ [] | some map ↦ unmap map s.buffer_size ∷ [] ]

unfoldable pub type_known : ℕ → Bool
type_known t = leb system_chrome t && leb t overlay_surface

-- lgp_surface_is_in_display. The display's size is not used.
unfoldable pub is_in_display : Create → Bool
is_in_display p =
    not (p.width == 0 || p.height == 0)
    && (not (ltb 16384 p.width || ltb 16384 p.height)
        && (not (ltb_ℤ p.x (negsuc 16383) || ltb_ℤ (pos 16384) p.x)
            && not (ltb_ℤ p.y (negsuc 16383) || ltb_ℤ (pos 16384) p.y)))

-- The switch of lgp_surface_validate_request, its last case for the three shell types.
abbrev pub validate_shell : Client → Create → Status
validate_shell client p =
    if not (has_bit cap_layer_shell client.caps_granted)
    then denied
    else if ltb p.layer layer_shell || ltb layer_system_modal p.layer
    then invalid
    else ok

abbrev pub validate_island : Client → Create → Status
validate_island client p =
    if not (has_bit cap_luna_island client.caps_granted)
    then denied
    else if not (p.layer == layer_luna_island)
    then invalid
    else ok

abbrev pub validate_canvas : Client → Create → Status
validate_canvas client p =
    if not (has_bit cap_canvas_surface client.caps_granted)
    then denied
    else if not (p.layer == layer_application) && not (p.layer == layer_wallpaper)
    then invalid
    else ok

abbrev pub validate_window : Create → Status
validate_window p = if not (p.layer == layer_application) then invalid else ok

-- lgp_surface_validate_request.
unfoldable pub validate_request : Client → Create → Status
unfolding type_known is_in_display
validate_request client p =
    if not (type_known p.surface_type)
    then invalid
    else if not (is_in_display p)
    then invalid
    else if p.surface_type == application_window
    then validate_window p
    else if p.surface_type == canvas_surface
    then validate_canvas client p
    else if p.surface_type == luna_island
    then validate_island client p
    else validate_shell client p

-- The first index at or after `i` whose slot passes the test.
unfoldable pub find_slot : (Surface → Bool) → ℕ → List Surface → Option ℕ
find_slot test i [] = none
find_slot test i (s ∷ rest) =
    let later = find_slot test (suc i) rest in if test s then some i else later

-- lgp_surface_manager_find: the slot of the surface in use with this id.
abbrev pub has_id : ℕ → Surface → Bool
has_id id s = s.in_use && (s.id == id)

unfoldable pub find : Manager → ℕ → Option ℕ
unfolding find_slot
find m id = find_slot (has_id id) 0 m.surfaces

-- lgp_surface_manager_find: the surface itself.
unfoldable pub manager_find : Manager → ℕ → Option Surface
unfolding find
manager_find m id = elim (find m id) [ none ↦ none | some i ↦ get_elem? m.surfaces i ]

abbrev pub is_free : Surface → Bool
is_free s = not s.in_use

abbrev pub slot_at : Manager → ℕ → Surface
slot_at m i = elim (get_elem? m.surfaces i) [ none ↦ cleared | some s ↦ s ]

-- The increment of next_surface_id, a uint32_t that skips 0.
abbrev pub next_id : ℕ → ℕ
next_id id = let n = (id + 1) % 2 ^ 32 in if n == 0 then 1 else n

abbrev pub filled : Client → Create → ℕ → Surface → Surface
filled client p id slot = record slot {
  in_use = true;
  id = id;
  owner = client.session_id;
  surface_type = p.surface_type;
  x = p.x;
  y = p.y;
  width = p.width;
  height = p.height;
  layer = p.layer;
}

abbrev pub fill_slot : Client → Create → Manager → Option ℕ → Manager × Status × ℕ
fill_slot client p m none = (m, no_memory, 0)
fill_slot client p m (some i) =
    let id = m.next_surface_id in
    (
      record {
        next_surface_id = next_id id;
        surfaces = set m.surfaces i (filled client p id (slot_at m i));
      },
      ok,
      id,
    )

abbrev pub if_ok : Manager → Status → Manager × Status × ℕ → Manager × Status × ℕ
if_ok m ok r = r
if_ok m e r = (m, e, 0)

-- lgp_surface_manager_create: the manager, the status and *out_surface_id.
unfoldable pub create : Manager → Client → Create → Manager × Status × ℕ
unfolding validate_request find_slot
create m client p =
    if_ok m (validate_request client p) (fill_slot client p m (find_slot is_free 0 m.surfaces))

abbrev pub destroy_slot : Manager → Client → Option ℕ → Manager × Status × List Effect
destroy_slot m client none = (m, not_found, [])
destroy_slot m client (some i) =
    let s = slot_at m i in
    if not (s.owner == client.session_id)
    then (m, denied, [])
    else (record m { surfaces = set m.surfaces i cleared }, ok, release s)

-- lgp_surface_manager_destroy.
unfoldable pub destroy : Manager → Client → ℕ → Manager × Status × List Effect
unfolding find release
destroy m client id = destroy_slot m client (find m id)

-- The first group of tests of lgp_surface_manager_commit, `payload->width * 4u` on a uint32_t.
abbrev pub shape_ok : Surface → Commit → Bool
shape_ok s p =
    (p.width == s.width)
    && ((p.height == s.height)
        && ((p.pixel_format == xrgb8888 || p.pixel_format == argb8888)
            && (not (ltb p.stride (p.width * 4 % 2 ^ 32))
                && (not (p.height == 0) && not (ltb ((2 ^ 64 - 1) / p.height) p.stride)))))

-- byte_size against the product of two size_t.
abbrev pub size_ok : Commit → Bool
size_ok p = not (ltb p.byte_size (p.stride * p.height % 2 ^ 64) || p.byte_size == 0)

abbrev pub unmap_old : Surface → List Effect
unmap_old s = elim s.buffer_map [ none ↦ [] | some map ↦ unmap map s.buffer_size ∷ [] ]

-- The part behind mmap, `mapped` being the result of mmap and `none` MAP_FAILED.
abbrev pub map_slot : Manager → ℕ → Surface → Commit → ℤ → Option ℕ → Manager × Status × List Effect
map_slot m i s p fd none = (m, bad_buffer, close_fd fd ∷ [])
map_slot m i s p fd (some map) = (
  record m {
    surfaces = set m.surfaces i (record s {
      buffer_map = some map;
      buffer_size = p.byte_size;
      stride = p.stride;
      pixel_format = p.pixel_format;
    });
  },
  ok,
  close_fd fd ∷ unmap_old s,
)

abbrev pub commit_slot :
    Manager → Client → Commit → ℤ → Option ℕ → Option ℕ → Manager × Status × List Effect
commit_slot m client p fd mapped none = (m, not_found, close_fd fd ∷ [])
commit_slot m client p fd mapped (some i) =
    let s = slot_at m i in
    if not (s.owner == client.session_id)
    then (m, denied, close_fd fd ∷ [])
    else if not (shape_ok s p)
    then (m, bad_buffer, close_fd fd ∷ [])
    else if not (size_ok p)
    then (m, bad_buffer, close_fd fd ∷ [])
    else map_slot m i s p fd mapped

-- lgp_surface_manager_commit.
unfoldable pub commit : Manager → Client → Commit → ℤ → Option ℕ → Manager × Status × List Effect
unfolding find
commit m client p fd mapped =
    if ltb_ℤ fd (pos 0)
    then (m, bad_buffer, [])
    else commit_slot m client p fd mapped (find m p.surface_id)

-- lgp_surface_manager_destroy_for_client.
abbrev pub owned : ℕ → Surface → Bool
owned session s = s.in_use && (s.owner == session)

unfoldable pub release_owned : ℕ → List Surface → List Surface × List Effect
unfolding release
release_owned session [] = ([], [])
release_owned session (s ∷ rest) =
    let (kept, effects) = release_owned session rest in
    if owned session s then (cleared ∷ kept, release s ++ effects) else (s ∷ kept, effects)

unfoldable pub destroy_for_client : Manager → Client → Manager × List Effect
unfolding release_owned
destroy_for_client m client =
    let (kept, effects) = release_owned client.session_id m.surfaces in
    (record m { surfaces = kept }, effects)
