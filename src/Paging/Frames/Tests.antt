-- ===== src/Paging/Frames/Tests.antt =====
-- Runs of the frame bitset, and its theorems at a concrete one.
use fotix.Base.{◌/◌, ◌*◌, ◌≡◌, refl, some, none}
use fotix.Memory.{Memory, load32, store32}
use fotix.Paging.Frames.{FrameSet, test_frame, find_bit, find_word, first_frame}
use fotix.Paging.Frames.Used.{used}
use fotix.Paging.Frames.First.{Least, first_frame_lem}

-- Two words; the first 32 frames and frame 33 are in use.
abbrev bitset : Memory
bitset = store32 (store32 (λ a. 0) 0x1000 0xffff_ffff) 0x1004 2

abbrev frame_set : FrameSet
frame_set = record { frames = 0x1000; nframes = 64 }

first_free : first_frame bitset frame_set ≡ some 32
unfolding first_frame find_word find_bit load32 store32
first_free = refl

none_free : first_frame bitset (record { frames = 0x1000; nframes = 63 }) ≡ none
unfolding first_frame find_word find_bit load32 store32
none_free = refl

test_set : test_frame bitset frame_set 0x21000 ≡ 2
unfolding test_frame load32 store32
test_set = refl

first_frame_lem_example :
    Least (used bitset frame_set) 0 (32 * (64 / 32)) (first_frame bitset frame_set)
first_frame_lem_example = first_frame_lem bitset frame_set
