-- ===== src/Lgp/Session/Keeps.antt =====
-- A change of the focus keeps the links of a session of src/lgp-compositor/main.c, and a test does if
-- both its branches do.
pub mod Windows
pub mod Manage
pub mod Requests
use mahina_os.Prelude.{
  ℕ, zero, suc, ◌≤◌, ◌<◌, ◌≡◌, refl, sym, ◌∙◌, Bool, true, false, Option, none, some, List, [], ◌∷◌,
  ◌++◌, ◌==◌, ltb, if◌then◌else◌, get_elem?, set, length, take, arith, ℤ, Bool-cases, inl, inr,
  length-append, ltb→lt,
}
use mahina_os.Lgp.Client.{Client, has_bit}
use mahina_os.Lgp.Wire.{Msg, payload_size}
use mahina_os.Lgp.Messages.{
  Create, Commit, SetPosition, decode_create, decode_destroy, decode_commit, decode_set_position,
  decode_set_focus, decode_set_state, decode_grab_key,
}
use mahina_os.Lgp.Surface.{
  Status, Surface, cleared, Manager, Effect, find, manager_find, slot_at, create, destroy, commit,
  filled,
}
use mahina_os.Lgp.Surface.Valid.{IsSurface, set-IsValid}
use mahina_os.Lgp.Surface.Ops.{
  Created, refused, full, made, create_decides, Destroyed, absent, foreign, gone, destroy_decides,
}
use mahina_os.Lgp.Surface.Commits.{Committed, no_fd, unfit, stored, commit_decides}
use mahina_os.Lgp.Surface.Commits as Commits
use mahina_os.Lgp.Surface.Steps.{create-IsValid, destroy-IsValid, commit-IsValid}
use mahina_os.Lgp.Session.{State, Answers, Outcome, Grab, find_client, with_client, with_manager}
use mahina_os.Lgp.Session.Manage.{
  place, focus, focus_on, wm_state_of, state_at, with_surface, placed, off_screen, place_at,
  place_found, handle_set_position, handle_set_focus, state_found, handle_set_state, grab,
  handle_grab_key,
}
use mahina_os.Lgp.Session.Message.{
  until_nul, clipped, handle_clipboard_set, handle_clipboard_get, handle_request,
}
use mahina_os.Lgp.Session.Windows.{
  is_ok, handle_fill_rect, created, create_with, destroy_with, commit_with, handle_create_surface,
  destroyed, handle_destroy_surface, take_fd, committed, handle_commit_buffer,
}
use mahina_os.Lgp.Session.Links.{
  IsSession, Owned, Owned-set, Owned-get, connected, with_client-IsSession, with_manager-IsSession,
  connected-find, RootManages-find,
}

pub focus-IsSession :
    (st : State) (a b : ℕ)
    → IsSession st
    → IsSession (record st { focus_session = a; focus_surface = b })
focus-IsSession st a b v = record {
  manager_valid = v.manager_valid;
  owners = v.owners;
  wm_linked = v.wm_linked;
  root_manages = v.root_manages;
  few_grabs = v.few_grabs;
  short_clipboard = v.short_clipboard;
}

pub pick :
    (b : Bool) (r t : Outcome) → IsSession r.0 → IsSession t.0 → IsSession (if b then r else t).0
pick true r t h k = h
pick false r t h k = k
