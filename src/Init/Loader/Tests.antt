-- ===== src/Init/Loader/Tests.antt =====
-- Runs of service_load_one and service_load_all of src/luna-init/service.c.
use mahina_os.Init.Service.{Service}
use mahina_os.Init.Toml.Load.{File}
use mahina_os.Init.Toml.Text.{strn_eq}
use mahina_os.Init.Toml.{string}
use mahina_os.Init.Loader.{service_of, load_one, load_all}
use mahina_os.Init.Loader.Table.{answer, load_all-firsts}
use mahina_os.Init.Loader.Arrays.{IsLoaded, load_one-IsLoaded}
use mahina_os.Init.Loader.Start.{load_all-build}
use mahina_os.Init.Depgraph.Build.{Tables, built, refused, build}
use mahina_os.Init.Depgraph.Build.Correct.{IsBuilt}
use mahina_os.Init.Depgraph.Build.Spec.{HasUnknown, IsStartOrder}
use mahina_os.Prelude.{
  zero, suc, ◌≤◌, get_elem?, arith, ◌⊎◌, ℕ, ◌≡◌, refl, true, [], ◌∷◌, List, none, some, CString,
  codes, map, length,
}
use mathlib.Core.Option

abbrev file : CString → File
file text = record {
  opened = true;
  st_size = some (length text);
  buffer_memory = true;
  bytes = some text;
  doc_memory = true;
}

abbrev dbus : CString
dbus =
    codes
      "[service]\nname = \"dbus\"\nbinary = \"/bin/dbus\"\n[service.depends]\nafter = [\"udev\"]\n"

abbrev udev : CString
udev = codes "[service]\nname = \"udev\"\nbinary = \"/bin/udev\"\n"

abbrev dir : List (CString × File)
dir =
    (codes "dbus.toml", file dbus)
    ∷ (codes "note", file dbus)
    ∷ (codes "bad.toml", file (codes "x"))
    ∷ (codes "udev.toml", file udev)
    ∷ (codes "udev2.toml", file udev)
    ∷ []

names_loaded :
    map (λ (s : Service). s.name) (load_all [] (some dir)).0 ≡ codes "dbus" ∷ codes "udev" ∷ []
unfolding load_all strn_eq
names_loaded = refl

after_loaded :
    Option.map (λ (s : Service). s.after) (load_one (file dbus)) ≡ some (codes "udev" ∷ [])
unfolding load_one strn_eq
after_loaded = refl

load_all-firsts_example : load_all [] (some dir) ≡ answer [] (some dir)
load_all-firsts_example = load_all-firsts [] (some dir)

abbrev udev_service : Service
udev_service =
    service_of
      (record {
        entries =
            (record {
              section = codes "service";
              key = codes "name";
              value = string (codes "udev");
              array_table_index = none;
            })
            ∷ (record {
              section = codes "service";
              key = codes "binary";
              value = string (codes "/bin/udev");
              array_table_index = none;
            })
            ∷ [];
        array_tables = [];
      })
      (codes "udev") (codes "/bin/udev")

udev_loads : load_one (file udev) ≡ some udev_service
unfolding load_one strn_eq
udev_loads = refl

load_one-IsLoaded_example : IsLoaded udev_service
load_one-IsLoaded_example = load_one-IsLoaded (file udev) udev_service udev_loads

abbrev AllFew : List Service → Type 0
AllFew [] = Unit {0}
AllFew (s ∷ l) = (s.after_count ≤ 8) × (s.before_count ≤ 8) × AllFew l

few_at :
    (l : List Service)
    → AllFew l
    → (i : ℕ) (s : Service) → get_elem? l i ≡ some s
    → (s.after_count ≤ 8) × (s.before_count ≤ 8)
few_at [] h i s e = absurd (ground arith)
few_at (t ∷ l) h zero s e = ground arith
few_at (t ∷ l) h (suc i) s e = few_at l h.2 i s e

dir-AllFew : AllFew (load_all [] (some dir)).0
unfolding load_all strn_eq
dir-AllFew = ground arith

load_all-build_example :
    (let table = (load_all [] (some dir)).0 in
      ((t : Tables) × (build table ≡ built t)
        × IsBuilt table t
        × (l : List ℕ) × IsStartOrder table l)
      ⊎ ((t : Tables) × (build table ≡ refused t)
          × (HasUnknown table ⊎ ((l : List ℕ) → ¬ IsStartOrder table l))))
load_all-build_example = load_all-build [] dir (few_at (load_all [] (some dir)).0 dir-AllFew)
