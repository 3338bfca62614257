-- ===== src/Stream/Chunks.antt =====
-- useBatchStream.ts: the blocks of a text that comes in chunks.
use flash_pay.Prelude.{
  Text, ◌≡◌, refl, ap, sym, ◌∙◌, false, ◌&&◌, Bool-cases, inl, inr, List, [], ◌∷◌, ◌++◌, ◌==◌,
  cons_first, All,
}
use flash_pay.Stream.Blocks.{remove_returns, split_blank, last_or_empty, without_last}

-- Either there is one part, which is the text itself, or there are two at least.
pub data Shape (x : Text) : Type 0 where
  whole : split_blank x ≡ x ∷ [] → Shape x
  parted : (p q : Text) (rest : List Text) → split_blank x ≡ p ∷ q ∷ rest → Shape x

pub split_blank-Shape : (x : Text) → Shape x
unfolding split_blank
split_blank-Shape [] = whole refl
split_blank-Shape (a ∷ []) = whole refl
split_blank-Shape (a ∷ b ∷ s) = elim (Bool-cases ((a == 10) && (b == 10))) [
  | inl blank ↦ elim (split_blank-Shape s) [
    | whole e ↦ parted [] s [] (rw (blank, split_blank) (ap (λ l. [] ∷ l) e))
    | parted p q rest e ↦ parted [] p (q ∷ rest) (rw (blank, split_blank) (ap (λ l. [] ∷ l) e))
  ]
  | inr solid ↦ elim (split_blank-Shape (b ∷ s)) [
    | whole e ↦ whole (rw (solid, split_blank) (ap (cons_first a) e))
    | parted p q rest e ↦ parted (a ∷ p) q rest (rw (solid, split_blank) (ap (cons_first a) e))
  ]
]

-- To go on splitting where the last part is still open.
abbrev pub resume : List Text → Text → List Text
resume parts y = without_last parts ++ split_blank (last_or_empty parts ++ y)

-- Splitting a longer text goes on from the open part of the shorter one.
pub split_blank-append : (x y : Text) → split_blank (x ++ y) ≡ resume (split_blank x) y
unfolding split_blank
split_blank-append [] y = refl
split_blank-append (a ∷ []) y = refl
split_blank-append (a ∷ b ∷ s) y = elim (Bool-cases ((a == 10) && (b == 10))) [
  | inl blank ↦
      let ih : split_blank (s ++ y) ≡ resume (split_blank s) y = split_blank-append s y in
      rw (blank, split_blank)
        (elim (split_blank-Shape s) [
          | whole e ↦
              ap (λ l. [] ∷ l) ih
              ∙ ap (λ l. [] ∷ resume l y) e
              ∙ sym (ap (λ l. resume ([] ∷ l) y) e)
          | parted p q rest e ↦
              ap (λ l. [] ∷ l) ih
              ∙ ap (λ l. [] ∷ resume l y) e
              ∙ sym (ap (λ l. resume ([] ∷ l) y) e)
        ])
  | inr solid ↦
      let ih : split_blank (b ∷ (s ++ y)) ≡ resume (split_blank (b ∷ s)) y =
        split_blank-append (b ∷ s) y in
      let step : split_blank (a ∷ b ∷ (s ++ y)) ≡ cons_first a (split_blank (b ∷ (s ++ y))) =
        rw (solid, split_blank) refl in
      rw (solid, split_blank)
        (elim (split_blank-Shape (b ∷ s)) [
          | whole e ↦ sym step ∙ sym (ap (λ l. resume (cons_first a l) y) e)
          | parted p q rest e ↦
              ap (cons_first a) ih
              ∙ ap (λ l. cons_first a (resume l y)) e
              ∙ sym (ap (λ l. resume (cons_first a l) y) e)
        ])
]

abbrev pub NoReturn : Text → Type 0
NoReturn = All λ c. (c == 13) ≡ false

pub NoReturn-remove_returns : (t : Text) → NoReturn (remove_returns t)
unfolding remove_returns
NoReturn-remove_returns [] = tt
NoReturn-remove_returns (c ∷ t) = elim (Bool-cases (c == 13)) [
  | inl return ↦ rw return (NoReturn-remove_returns t)
  | inr other ↦ rw other (other, NoReturn-remove_returns t)
]

pub remove_returns-fixed : (t : Text) → NoReturn t → remove_returns t ≡ t
unfolding remove_returns
remove_returns-fixed [] h = refl
remove_returns-fixed (c ∷ t) (other, h) = rw (other, remove_returns-fixed t h) refl

pub remove_returns-append :
    (s t : Text) → remove_returns (s ++ t) ≡ remove_returns s ++ remove_returns t
unfolding remove_returns
remove_returns-append [] t = refl
remove_returns-append (c ∷ s) t = elim (Bool-cases (c == 13)) [
  | inl return ↦ rw (return, remove_returns-append s t) refl
  | inr other ↦ rw (other, remove_returns-append s t) refl
]

-- The open part of a text without carriage returns has none.
pub NoReturn-last : (x : Text) → NoReturn x → NoReturn (last_or_empty (split_blank x))
unfolding split_blank
NoReturn-last [] h = tt
NoReturn-last (a ∷ []) h = h
NoReturn-last (a ∷ b ∷ s) (p, (q, h)) = elim (Bool-cases ((a == 10) && (b == 10))) [
  | inl blank ↦
      let ih = NoReturn-last s h in
      rw (blank, split_blank)
        (elim (split_blank-Shape s) [
          | whole e ↦ rw e (rw e at ih)
          | parted _ _ _ e ↦ rw e (rw e at ih)
        ])
  | inr solid ↦
      let ih = NoReturn-last (b ∷ s) (q, h) in
      rw (solid, split_blank)
        (elim (split_blank-Shape (b ∷ s)) [
          | whole e ↦ rw e (p, rw e at ih)
          | parted _ _ _ e ↦ rw e (rw e at ih)
        ])
]

-- The open part of a text holds no blank line.
pub split_blank-last :
    (x : Text) → split_blank (last_or_empty (split_blank x)) ≡ last_or_empty (split_blank x) ∷ []
unfolding split_blank
split_blank-last [] = refl
split_blank-last (a ∷ []) = refl
split_blank-last (a ∷ b ∷ s) = elim (Bool-cases ((a == 10) && (b == 10))) [
  | inl blank ↦
      let ih = split_blank-last s in
      rw (blank, split_blank)
        (elim (split_blank-Shape s) [
          | whole e ↦ rw e (rw e at ih)
          | parted _ _ _ e ↦ rw e (rw e at ih)
        ])
  | inr solid ↦
      let ih = split_blank-last (b ∷ s) in
      rw (solid, split_blank)
        (elim (split_blank-Shape (b ∷ s)) [
          | whole e ↦
              let single : split_blank (a ∷ b ∷ s) ≡ (a ∷ b ∷ s) ∷ [] =
                rw (solid, split_blank) (ap (cons_first a) e) in
              rw e single
          | parted _ _ _ e ↦ rw e (rw e at ih)
        ])
]

without_last-append :
    (xs : List Text) (y : Text) (ys : List Text)
    → without_last (xs ++ y ∷ ys) ≡ xs ++ without_last (y ∷ ys)
without_last-append [] y ys = refl
without_last-append (x ∷ []) y ys = refl
without_last-append (x ∷ z ∷ xs) y ys = ap (λ l. x ∷ l) (without_last-append (z ∷ xs) y ys)

-- The closed parts of a longer text: those of the shorter one, then those from its open part on.
pub without_last-split_blank-append :
    (x y : Text)
    → without_last (split_blank (x ++ y))
      ≡ without_last (split_blank x)
        ++ without_last (split_blank (last_or_empty (split_blank x) ++ y))
without_last-split_blank-append x y =
    ap without_last (split_blank-append x y)
    ∙ (elim (split_blank-Shape (last_or_empty (split_blank x) ++ y)) [
      | whole e ↦ rw e (without_last-append (without_last (split_blank x)) _ [])
      | parted p q rest e ↦ rw e (without_last-append (without_last (split_blank x)) p (q ∷ rest))
    ])
