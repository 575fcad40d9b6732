-- ===== src/Lgp/Session/Tests.antt =====
-- The theorems on the clients and messages of src/lgp-compositor/main.c at concrete inputs.
use mahina_os.Prelude.{
  ◌+ℤ◌, arith, ℕ, suc, ◌≡◌, refl, true, false, none, some, List, [], ◌∷◌, length, get_elem?, pos,
  ◌≤◌,
}
use mahina_os.Lgp.Client.{Client}
use mahina_os.Lgp.Wire.{Msg}
use mahina_os.Lgp.Surface.{Surface, cleared, init}
use mahina_os.Lgp.Session.{State, Answers, eq_ℤ, kept, find_client}
use mahina_os.Lgp.Session.Manage.{with_surface}
use mahina_os.Lgp.Session.Message.{handle_message}
use mahina_os.Lgp.Session.Buffer.{client_create, accept}
use mahina_os.Lgp.Session.Loop.{process}
use mahina_os.Lgp.Session.Routes.{find_target, wm_session}
use mahina_os.Lgp.Session.Links.{IsSession}
use mahina_os.Lgp.Session.Steps.{started}
use mahina_os.Lgp.Session.Reach.{comes, sends, start, next, reach-IsSession}
use mahina_os.Lgp.Session.Turns.{Finished, process_settles}
use mahina_os.Lgp.Session.Guards.{handle_message_refuses}
use mahina_os.Lgp.Session.Targets.{find_target_topmost}
use mahina_os.Lgp.Session.Hits.{IsTarget}

-- All writes go through, on a display of 1024 by 768.
abbrev fine : Answers
fine = record {
  written = true;
  mapped = some 4096;
  composed = true;
  flipped = true;
  hdisplay = 1024;
  vdisplay = 768;
}

-- The first client, of root, and its hello, which asks for the window manager's capability.
abbrev shell : Client
shell = record {
  fd = pos 5;
  uid = 0;
  session_id = 1;
  caps_granted = 0;
  hello_done = false;
  rx_buf = [];
  pending_fds = [];
}

abbrev hello : Msg
hello = record { type = 1; size = 14; payload = 1 ∷ 0 ∷ 0 ∷ 0 ∷ 128 ∷ 0 ∷ 0 ∷ 0 ∷ [] }

-- The session after the client came.
abbrev joined : State
joined = accept (pos 5) (some 0) started

joined_finds : find_client (pos 5) joined.clients ≡ some shell
unfolding accept client_create find_client eq_ℤ
joined_finds = refl

started_empty : find_client (pos 5) started.clients ≡ none
unfolding find_client
started_empty = refl

reach-IsSession_example : IsSession (handle_message fine joined shell hello).0
reach-IsSession_example = reach-IsSession (
    next (next start (comes started (pos 5) (some 0) started_empty))
      (sends joined fine shell hello joined_finds))

-- A hello and the start of a second message.
abbrev buffered : List ℕ
buffered = 1 ∷ 0 ∷ 14 ∷ 0 ∷ 0 ∷ 0 ∷ 1 ∷ 0 ∷ 0 ∷ 0 ∷ 128 ∷ 0 ∷ 0 ∷ 0 ∷ 3 ∷ 2 ∷ []

process_settles_example :
    Finished (process (suc (length buffered)) (λ k. fine) 0 (pos 5) joined buffered)
process_settles_example = process_settles (λ k. fine) 0 (pos 5) joined buffered

-- A client that is not the window manager asks for the focus.
abbrev visitor : Client
visitor = record shell {
  fd = pos 6;
  uid = 1000;
  session_id = 2;
  caps_granted = 2;
  hello_done = true;
}

abbrev set_focus : Msg
set_focus = record { type = 0x0203; size = 10; payload = 1 ∷ 0 ∷ 0 ∷ 0 ∷ [] }

handle_message_refuses_example : handle_message fine joined visitor set_focus ≡ kept joined false
handle_message_refuses_example = handle_message_refuses fine joined visitor set_focus refl

-- Two windows, one over the other.
abbrev window : Surface
window = record cleared { in_use = true; id = 1; owner = 2; width = 100; height = 100; layer = 100 }

abbrev upper : Surface
upper = record window { id = 2; layer = 150 }

abbrev shown : State
shown = with_surface 1 window (with_surface 0 upper started)

window-IsTarget : IsTarget (wm_session shown) (pos 50) (pos 60) window
unfolding wm_session ◌+ℤ◌
window-IsTarget = record {
  used = refl;
  not_wm = λ e. cc;
  on_layer = (omega arith, omega arith);
  shown = ((λ e. omega arith), (λ e. omega arith));
  under = (omega arith, omega arith, omega arith, omega arith);
}

window_at : get_elem? shown.manager.surfaces 1 ≡ some window
unfolding init
window_at = refl

find_target_topmost_example :
    (s : Surface) × (j : ℕ) × (find_target shown (pos 50) (pos 60) ≡ some s)
    × (get_elem? shown.manager.surfaces j ≡ some s)
    × IsTarget (wm_session shown) (pos 50) (pos 60) s
    × (window.layer ≤ s.layer)
find_target_topmost_example =
    find_target_topmost shown (pos 50) (pos 60) 1 window window_at window-IsTarget
