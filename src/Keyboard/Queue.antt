-- ===== src/Keyboard/Queue.antt =====
-- The circular buffer as a queue of characters.
use fotix.Base.{
  ℕ, zero, suc, ◌+◌, ◌-◌, ◌%◌, ◌<◌, ◌≡◌, ◌≢◌, refl, ap, ap₂, ◌∙◌, sym, arith, List, [], ◌∷◌, ◌++◌,
  Bool-cases, ◌⊎◌, inl, inr, ◌==◌, ==_iff, if◌then◌else◌, length, get_or, set, length-set,
  get_or-set_self, get_or-set_ne, bit_and, u32,
}
use fotix.Base.Bits.{bit_and_mask}
use fotix.Keyboard.{Keyboard, keyboard_getchar, buffer_char}

-- The `n` characters from index `start` on, going round behind 255.
abbrev pub window : List ℕ → (start n : ℕ) → List ℕ
window buf start zero = []
window buf start (suc n) = get_or buf start 0 ∷ window buf ((start + 1) % 256) n

-- How many characters wait.
abbrev pub count : Keyboard → ℕ
count k = (k.keyboard_buffer_end + 256 - k.keyboard_buffer_start) % 256

abbrev pub queue : Keyboard → List ℕ
queue k = window k.keyboard_buffer k.keyboard_buffer_start (count k)

pub record IsRing (k : Keyboard) : Type 0 where
  pub start_in : k.keyboard_buffer_start < 256
  pub end_in : k.keyboard_buffer_end < 256
  pub room : length k.keyboard_buffer ≡ 256

length-window : (buf : List ℕ) (start n : ℕ) → length (window buf start n) ≡ n
length-window buf start zero = refl
length-window buf start (suc n) = ap suc (length-window buf ((start + 1) % 256) n)

pub length-queue : (k : Keyboard) → length (queue k) ≡ count k
length-queue k = length-window k.keyboard_buffer k.keyboard_buffer_start (count k)

-- A write outside a window leaves it.
window-set :
    (buf : List ℕ) (i c start n : ℕ)
    → start < 256
    → ((j : ℕ) → j < n → i ≢ (start + j) % 256)
    → window (set buf i c) start n ≡ window buf start n
window-set buf i c start zero h out = refl
window-set buf i c start (suc n) h out =
    ap₂ ◌∷◌ (get_or-set_ne buf i start c 0 (λ e. out 0 (omega arith) (omega arith))) (
      window-set buf i c ((start + 1) % 256) n (omega arith)
        (λ j q e. out (j + 1) (omega arith) (omega arith)))

window-append :
    (buf : List ℕ) (start n i : ℕ)
    → start < 256
    → i ≡ (start + n) % 256
    → window buf start (suc n) ≡ window buf start n ++ (get_or buf i 0 ∷ [])
window-append buf start zero i h e = ap (λ j. get_or buf j 0 ∷ []) (omega arith)
window-append buf start (suc n) i h e =
    ap (λ w. get_or buf start 0 ∷ w)
      (window-append buf ((start + 1) % 256) n i (omega arith) (omega arith))

-- Writing behind a window that does not fill the buffer makes it longer by that character.
window_push :
    (buf : List ℕ) (c start n i : ℕ)
    → length buf ≡ 256
    → start < 256
    → n < 256
    → i ≡ (start + n) % 256
    → window (set buf i c) start (suc n) ≡ window buf start n ++ (c ∷ [])
window_push buf c start n i room h small e =
    window-append (set buf i c) start n i h e
    ∙ ap₂ (λ w x. w ++ (x ∷ [])) (window-set buf i c start n h (λ j q e'. omega arith))
        (get_or-set_self buf i c 0 (omega arith))

wrap : (i : ℕ) → i < 256 → bit_and (u32 (i + 1)) 255 ≡ (i + 1) % 256
wrap i h = bit_and_mask 8 (u32 (i + 1)) ∙ omega arith

-- The queue's own operations.
abbrev pub pop : List ℕ → ℕ × List ℕ
pop [] = (0, [])
pop (c ∷ q) = (c, q)

pop-window :
    (buf : List ℕ) (start n : ℕ)
    → n ≢ 0
    → pop (window buf start n) ≡ (get_or buf start 0, window buf ((start + 1) % 256) (n - 1))
pop-window buf start zero ne = absurd (ne refl)
pop-window buf start (suc n) ne =
    ap (λ j. (get_or buf start 0, window buf ((start + 1) % 256) j)) (omega arith)

getchar_empty : (k : Keyboard) → count k ≡ 0 → IsRing k → keyboard_getchar k ≡ (0, k)
unfolding keyboard_getchar
getchar_empty k none_left v = ground arith

getchar_taken :
    (k : Keyboard)
    → count k ≢ 0
    → IsRing k
    → keyboard_getchar k ≡ (
      get_or k.keyboard_buffer k.keyboard_buffer_start 0,
      record k { keyboard_buffer_start = (k.keyboard_buffer_start + 1) % 256 },
    )
unfolding keyboard_getchar
getchar_taken k some_left v = ground (arith, wrap k.keyboard_buffer_start)

-- `keyboard_getchar` takes the oldest character off the queue, or returns NUL and leaves an empty
-- queue alone; either way the buffer is a ring afterwards.
pub getchar_refines :
    (k : Keyboard)
    → IsRing k
    → let (c, k') = keyboard_getchar k in ((c, queue k') ≡ pop (queue k)) × IsRing k'
getchar_refines k v = elim (Bool-cases (count k == 0)) [
  | inl t ↦
      let none_left : count k ≡ 0 = (==_iff _ _).0 t in
      rw (getchar_empty k none_left v) (
        ap (λ n. (0, window buf start n)) none_left
            ∙ sym (ap (λ n. pop (window buf start n)) none_left),
        v,
      )
  | inr f ↦
      let some_left : count k ≢ 0 = ground arith in
      rw (getchar_taken k some_left v) (
        ap (λ n. (get_or buf start 0, window buf ((start + 1) % 256) n)) (omega arith)
            ∙ sym (pop-window buf start (count k) some_left),
        omega arith,
      )
]
  where
    open k use {keyboard_buffer as buf, keyboard_buffer_start as start}

buffer_char_stored :
    (c : ℕ) (k : Keyboard)
    → IsRing k
    → (k.keyboard_buffer_start ≡ 0) ⊎ (count k < 255)
    → buffer_char c k ≡ record k {
      keyboard_buffer_end = (k.keyboard_buffer_end + 1) % 256;
      keyboard_buffer = set k.keyboard_buffer k.keyboard_buffer_end c;
    }
unfolding buffer_char
buffer_char_stored c k v room = ground (arith, wrap k.keyboard_buffer_end)

buffer_char_dropped :
    (c : ℕ) (k : Keyboard)
    → IsRing k
    → k.keyboard_buffer_start ≢ 0
    → count k ≡ 255
    → buffer_char c k ≡ k
unfolding buffer_char
buffer_char_dropped c k v inner full = ground arith

-- While fewer than 255 characters wait, the handler's character joins the queue at its end.
pub buffer_char_appends :
    (c : ℕ) (k : Keyboard)
    → IsRing k
    → count k < 255
    → (queue (buffer_char c k) ≡ queue k ++ (c ∷ [])) × IsRing (buffer_char c k)
buffer_char_appends c k v room = rw (buffer_char_stored c k v (inr room)) (
  ap (window (set buf end c) start) {y = suc (count k)} (omega arith)
      ∙ window_push buf c start (count k) end v.room v.start_in (omega arith) (omega arith),
  record { start_in = v.start_in; end_in = omega arith; room = length-set buf end c ∙ v.room },
)
  where
    open k use {keyboard_buffer as buf, keyboard_buffer_start as start, keyboard_buffer_end as end}

-- With 255 characters waiting, the next one is dropped, unless the oldest stands at index 0: then
-- the guard of the handler, which compares the end with 2^32 - 1, lets it through, and all the
-- characters are lost.
pub buffer_char_full :
    (c : ℕ) (k : Keyboard)
    → IsRing k
    → count k ≡ 255
    → queue (buffer_char c k) ≡ (if k.keyboard_buffer_start == 0 then [] else queue k)
buffer_char_full c k v full = elim (Bool-cases (k.keyboard_buffer_start == 0)) [
  | inl t ↦
      let first : k.keyboard_buffer_start ≡ 0 = (==_iff _ _).0 t in
      rw t (
        ap queue (buffer_char_stored c k v (inl first))
        ∙ ap (window (set k.keyboard_buffer k.keyboard_buffer_end c) k.keyboard_buffer_start)
            {y = 0} (omega arith))
  | inr f ↦ rw f (ap queue (buffer_char_dropped c k v (ground arith) full))
]
