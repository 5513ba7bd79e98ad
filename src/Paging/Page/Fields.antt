-- ===== src/Paging/Page/Fields.antt =====
-- The bit fields of `page_t` do not overlap, and fill a word.
use fotix.Base.{ℕ, ◌^◌, ◌<◌, ◌≡◌, ap, ◌∙◌, arith}
use fotix.Memory.{Memory, load32}
use fotix.Memory.Words.{load32-store32}
use fotix.Paging.Page.{Page, page_of_word, word_of_page, load_page, store_page}

pub record IsPage (p : Page) : Type 0 where
  pub present : p.present < 2
  pub rw : p.rw < 2
  pub user : p.user < 2
  pub accessed : p.accessed < 2
  pub dirty : p.dirty < 2
  pub unused : p.unused < 2 ^ 7
  pub frame : p.frame < 2 ^ 20

pub page_of_word-IsPage : (w : ℕ) → IsPage (page_of_word w)
unfolding page_of_word
page_of_word-IsPage w = omega arith

pub word_of_page-lt : (p : Page) → IsPage p → word_of_page p < 2 ^ 32
unfolding word_of_page
word_of_page-lt p v = omega arith

-- Fields that fit are read back from the word that they make, and a word is made by its fields.
pub page_of_word-word_of_page : (p : Page) → IsPage p → page_of_word (word_of_page p) ≡ p
unfolding page_of_word word_of_page
page_of_word-word_of_page p v = ground arith

pub word_of_page-page_of_word : (w : ℕ) → w < 2 ^ 32 → word_of_page (page_of_word w) ≡ w
unfolding page_of_word word_of_page
word_of_page-page_of_word w h = omega arith

pub load_page-store_page :
    (m : Memory) (a : ℕ) (p : Page) → IsPage p → load_page (store_page m a p) a ≡ p
unfolding load_page store_page
load_page-store_page m a p v =
    ap page_of_word (load32-store32 m a (word_of_page p) (word_of_page-lt p v))
    ∙ page_of_word-word_of_page p v

pub load_page-IsPage : (m : Memory) (a : ℕ) → IsPage (load_page m a)
unfolding load_page
load_page-IsPage m a = page_of_word-IsPage (load32 m a)
