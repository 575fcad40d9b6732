-- ===== src/Lgp/Scene/Clip.antt =====
-- The clipping of src/lgp-compositor/scene/surface.c stays in the frame and in the surface.
use mahina_os.Prelude.{ℕ, ◌+◌, ◌≤◌, ◌<◌, ℤ, pos, negsuc, arith}
use mahina_os.Lgp.Scene.{clip, source_index}

pub clip_inside :
    (x : ℤ) (size room k : ℕ)
    → size ≤ 16384
    → k < (clip x size room).1
    → ((clip x size room).0 + k < room) × (source_index ((clip x size room).0 + k) x < size)
unfolding clip
clip_inside (pos x) size room k small h = ground arith
clip_inside (negsuc x) size room k small h = ground arith
