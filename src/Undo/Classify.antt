-- ===== src/Undo/Classify.antt =====
-- undo.rs: the kind of an operation is a function of the reflog message's first word.
use git_client.Prelude.{
  ℕ, ◌≡◌, ap, ◌∙◌, inl, inr, Bool, true, false, ◌||◌, List, [], ◌∷◌, ◌++◌, Option, none, some, Text,
  codes, text_eq, starts_with, is_whitespace, trim_start, ◌==◌, if◌then◌else◌, All, arith,
  Bool-cases,
}
use git_client.Undo.{UndoKind, uncommit, restore, first_token, classify_head, classify_undoable}

-- A blank or a colon ends a word.
abbrev pub ends_word : ℕ → Bool
ends_word c = c == 32 || c == b':'

-- A word as git writes it: not empty, not starting with white space, without a separator.
abbrev pub IsWord : Text → Type 0
IsWord [] = ⊥
IsWord (c ∷ w) = (is_whitespace c ≡ false) × All (λ d. ends_word d ≡ false) (c ∷ w)

abbrev pub keywords : List (Text × UndoKind)
keywords =
    (codes "commit", uncommit)
    ∷ (codes "cherry-pick", restore)
    ∷ (codes "revert", restore)
    ∷ (codes "merge", restore)
    ∷ (codes "rebase", restore)
    ∷ (codes "reset", restore)
    ∷ (codes "pull", restore)
    ∷ []

abbrev pub kind_in : List (Text × UndoKind) → Text → Option UndoKind
kind_in [] w = none
kind_in ((k, u) ∷ ks) w = if text_eq w k then some u else kind_in ks w

abbrev pub kind_of : Option (Text × UndoKind) → Option UndoKind
kind_of none = none
kind_of (some (label, kind)) = some kind

first_token-word :
    (w : Text) (sep : ℕ) (rest : Text)
    → All (λ d. ends_word d ≡ false) w
    → ends_word sep ≡ true
    → first_token (w ++ sep ∷ rest) ≡ w
unfolding first_token
first_token-word [] sep rest h s = rw s
first_token-word (c ∷ w) sep rest h s = rw (h.0, first_token-word w sep rest h.1 s)

trim_start-blanks :
    (blanks : Text) (c : ℕ) (s : Text)
    → All (λ d. is_whitespace d ≡ true) blanks
    → is_whitespace c ≡ false
    → trim_start (blanks ++ c ∷ s) ≡ c ∷ s
unfolding trim_start
trim_start-blanks [] c s h k = rw k
trim_start-blanks (b ∷ blanks) c s h k = rw h.0 (trim_start-blanks blanks c s h.1 k)

kind_of-classify_head :
    (w : Text) (amend : Bool) → kind_of (classify_head w amend) ≡ kind_in keywords w
unfolding classify_head
kind_of-classify_head w amend = elim (Bool-cases (text_eq w (codes "commit"))) [
  | inl e ↦ rw e (elim (Bool-cases amend) [ inl a ↦ rw a | inr a ↦ rw a ])
  | inr e ↦ rw e (
      others (text_eq w (codes "cherry-pick")) (text_eq w (codes "revert"))
        (text_eq w (codes "merge")) (text_eq w (codes "rebase")) (text_eq w (codes "reset"))
        (text_eq w (codes "pull")))
]
  where
    others :
        (a b c d e f : Bool)
        → kind_of (
            if a
            then some (codes "cherry-pick", restore)
            else if b
            then some (codes "回退提交(revert)", restore)
            else if c
            then some (codes "合并", restore)
            else if d
            then some (codes "变基(rebase)", restore)
            else if e
            then some (codes "重置(reset)", restore)
            else if f
            then some (codes "拉取(pull)", restore)
            else none)
          ≡ (if a
              then some restore
              else if b
              then some restore
              else if c
              then some restore
              else if d
              then some restore
              else if e
              then some restore
              else if f
              then some restore
              else none)
    others a b c d e f = ground arith

classify-first_token :
    (m : Text) → kind_of (classify_undoable m) ≡ kind_in keywords (first_token (trim_start m))
unfolding classify_undoable
classify-first_token m =
    kind_of-classify_head (first_token (trim_start m))
      (starts_with (codes "commit (amend)") (trim_start m))

-- A message of any white space, a word, a blank or colon and any rest is undoable exactly if its
-- word is one of the seven keywords, and then by the kind of that keyword: `uncommit` for a commit
-- or an amend, `restore` for the other six.
pub classify-keyword :
    (blanks w : Text) (sep : ℕ) (rest : Text)
    → All (λ d. is_whitespace d ≡ true) blanks
    → IsWord w
    → ends_word sep ≡ true
    → kind_of (classify_undoable (blanks ++ (w ++ sep ∷ rest))) ≡ kind_in keywords w
classify-keyword blanks [] sep rest h k s = absurd k
classify-keyword blanks (c ∷ w) sep rest h k s =
    classify-first_token (blanks ++ c ∷ (w ++ sep ∷ rest))
    ∙ ap (kind_in keywords) (
        ap first_token (trim_start-blanks blanks c (w ++ sep ∷ rest) h k.0)
        ∙ first_token-word (c ∷ w) sep rest k.1 s)
