-- ===== src/Usage/Cut.antt =====
-- A sorted list of rows that is cut after so many, and the last row of a list.
use mathlib.Core.List.{append-nil}
use kamu_llm_gateway.Prelude.{
  ℕ, zero, suc, ◌≤◌, ◌≡◌, ◌⊎◌, refl, ap, ◌∙◌, inl, inr, true, List, [], ◌∷◌, ◌++◌, Option, none,
  some, arith, In, All-In, IsOrdered, take, length, min,
}
use kamu_llm_gateway.Database.{UsageLogRow}
use kamu_llm_gateway.UsageId.{cursor_of}
use kamu_llm_gateway.Usage.{id_le, last_row, page_size}

pub take_all : {A : Type 0} (n : ℕ) (xs : List A) → length xs ≤ n → take n xs ≡ xs
take_all zero [] h = refl
take_all (suc n) [] h = refl
take_all zero (x ∷ xs) h = absurd (omega (arith, h))
take_all (suc n) (x ∷ xs) h = ap (λ l. x ∷ l) (take_all n xs (omega (arith, h)))

-- A sorted list is cut after an element that none of the rest comes before.
pub take_or_after :
    (n : ℕ) (r : UsageLogRow) (rows : List UsageLogRow)
    → IsOrdered id_le rows
    → In r rows
    → In r (take (suc n) rows)
      ⊎ ((last : UsageLogRow) × (last_row (take (suc n) rows) ≡ some last)
          × (id_le last r ≡ true)
          × (length (take (suc n) rows) ≡ suc n))
unfolding last_row
take_or_after n r [] ordered m = absurd m
take_or_after n r (x ∷ rows) ordered (inl e) = inl (inl e)
take_or_after zero r (x ∷ rows) (first, rest) (inr m) =
    inr (x, refl, All-In (λ y. id_le x y ≡ true) r rows first m, refl)
take_or_after (suc n) r (x ∷ y ∷ rows) (first, rest) (inr m) =
    elim (take_or_after n r (y ∷ rows) rest m) [
      | inl here ↦ inl (inr here)
      | inr (last, cut, after, full) ↦ inr (last, cut, after, ap suc full)
    ]
take_or_after (suc n) r (x ∷ []) ordered (inr m) = absurd m

pub page_size-suc : (o : Option ℕ) → (n : ℕ) × (page_size o ≡ suc n)
unfolding page_size
page_size-suc none = (4_999, refl)
page_size-suc (some zero) = (4_999, refl)
page_size-suc (some (suc k)) = (min 4_999 k, ground arith)

pub In_of_last : (y : UsageLogRow) (rows : List UsageLogRow) → last_row rows ≡ some y → In y rows
unfolding last_row
In_of_last y [] e = absurd (cc e)
In_of_last y (x ∷ []) e = inl (cc e)
In_of_last y (x ∷ z ∷ rows) e = inr (In_of_last y (z ∷ rows) e)

last_of :
    (x : UsageLogRow) (rows : List UsageLogRow) → (y : UsageLogRow) × (last_row (x ∷ rows) ≡ some y)
unfolding last_row
last_of x [] = (x, refl)
last_of x (z ∷ rows) = last_of z rows

last_row-append :
    (rows : List UsageLogRow) (x : UsageLogRow) (more : List UsageLogRow)
    → last_row (rows ++ (x ∷ more)) ≡ last_row (x ∷ more)
unfolding last_row
last_row-append [] x more = refl
last_row-append (y ∷ []) x more = refl
last_row-append (y ∷ z ∷ rows) x more = last_row-append (z ∷ rows) x more

pub page_last_of :
    (last : UsageLogRow) (rows tail : List UsageLogRow)
    → last_row rows ≡ some last
    → ((t : UsageLogRow) → In t tail → cursor_of t.usage_id ≡ cursor_of last.usage_id)
    → (t : UsageLogRow) × (last_row (rows ++ tail) ≡ some t)
      × (cursor_of t.usage_id ≡ cursor_of last.usage_id)
page_last_of last rows [] cut_at same = (last, ap last_row (append-nil rows) ∙ cut_at, refl)
page_last_of last rows (x ∷ more) cut_at same =
    let (y, e) = last_of x more in
    (y, last_row-append rows x more ∙ e, same y (In_of_last y (x ∷ more) e))
