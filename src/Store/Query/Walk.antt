-- ===== src/Store/Query/Walk.antt =====
-- A client that follows the tokens from page to page, crates/atelia-core/src/store.rs.
use atelia_secretary.Base.{
  String, ℕ, zero, suc, ◌+◌, ◌-◌, ◌≤◌, ◌<◌, ◌≡◌, refl, sym, ap, ◌∙◌, arith, false, Option, none,
  some, List, [], ◌∷◌, ◌++◌, ◌==◌, ok, err, take, drop, length, ltb, ltb_false→le, ltb→lt,
  Bool-cases, inl, inr, string_eq,
}
use atelia_secretary.Store.Query.{Decimal, page_records, page_start}
use atelia_secretary.Store.Query.Paging.{page_records-take-drop}

-- What the walk relies on: the decimal notation of a number is not empty and parses to it.
pub record IsDecimal (decimal : Decimal) : Type 0 where
  pub parsed : (n : ℕ) → decimal.parse (decimal.print n) ≡ some n
  pub written : (n : ℕ) → (decimal.print n == "") ≡ false

module _ {R : Type 0} where
  abbrev pub prepend : List R → Option (List R) → Option (List R)
  prepend page none = none
  prepend page (some rest) = some (page ++ rest)

  -- A page alone if it has no token, or else with what the token leads to.
  abbrev pub with_next :
      (Option String → Option (List R)) → List R × Option String → Option (List R)
  with_next later (page, none) = some page
  with_next later (page, some next) = prepend page (later (some next))

  -- The records of all pages from a token on, within a number of requests; `none` if they do not
  -- suffice or a token is refused.
  unfoldable pub walk : Decimal → List R → ℕ → ℕ → Option String → Option (List R)
  walk decimal records size zero token = none
  walk decimal records size (suc requests) token = elim (page_start decimal token "jobs") [
    | err e ↦ none
    | ok start ↦
        with_next (walk decimal records size requests) (page_records decimal records start size)
  ]

  take-whole : (n : ℕ) (xs : List R) → length xs ≤ n → take n xs ≡ xs
  take-whole zero [] h = refl
  take-whole zero (x ∷ xs) h = absurd (omega (arith, h))
  take-whole (suc n) [] h = refl
  take-whole (suc n) (x ∷ xs) h = cc (take-whole n xs (omega (arith, h)))

  pub take-drop : (n : ℕ) (xs : List R) → take n xs ++ drop n xs ≡ xs
  take-drop zero xs = refl
  take-drop (suc n) [] = refl
  take-drop (suc n) (x ∷ xs) = cc (take-drop n xs)

  length-drop : (n : ℕ) (xs : List R) → length (drop n xs) ≡ length xs - n
  length-drop zero xs = omega arith
  length-drop (suc n) [] = omega arith
  length-drop (suc n) (x ∷ xs) = omega (arith, length-drop n xs)

  drop_empty : (n : ℕ) → drop {A = R} n [] ≡ []
  drop_empty zero = refl
  drop_empty (suc n) = refl

  drop-drop : (m n : ℕ) (xs : List R) → drop n (drop m xs) ≡ drop (m + n) xs
  drop-drop zero n xs = ap (λ k. drop k xs) (omega arith)
  drop-drop (suc m) n [] = drop_empty n ∙ sym (drop_empty (suc m + n))
  drop-drop (suc m) n (x ∷ xs) =
      let next : suc (m + n) ≡ suc m + n = omega arith in
      drop-drop m n xs ∙ ap (λ k. drop k (x ∷ xs)) next

module _ {R : Type 0} (decimal : Decimal) (notation : IsDecimal decimal) (records : List R)
    (size : ℕ) (positive : 0 < size) where
  page_start-print : (n : ℕ) → page_start decimal (some (decimal.print n)) "jobs" ≡ ok n
  unfolding page_start
  page_start-print n = rw (notation.written n, notation.parsed n) refl

  gathered :
      (later : Option (List R)) (start : ℕ)
      → later ≡ some (drop (start + size) records)
      → prepend (take size (drop start records)) later ≡ some (drop start records)
  gathered later start h =
      rw h (rw (← drop-drop start size records) (ap some (take-drop size (drop start records))))

  walk-drop :
      (requests start : ℕ) (token : Option String)
      → page_start decimal token "jobs" ≡ ok start
      → length (drop start records) ≤ requests
      → walk decimal records size (suc requests) token ≡ some (drop start records)
  unfolding walk
  walk-drop zero start token e enough =
      let page = page_records-take-drop decimal records start size positive in
      let last : ltb size (length (drop start records)) ≡ false =
        ground (arith, enough, positive) in
      rw (e, page, last, walk)
        (ap some (take-whole size (drop start records) (omega (arith, enough))))
  walk-drop (suc requests) start token e enough =
      let page = page_records-take-drop decimal records start size positive in
      elim (Bool-cases (ltb size (length (drop start records)))) [
        | inl more ↦
            let fewer : length (drop (start + size) records) ≤ requests = omega (
              arith,
              enough,
              positive,
              length-drop start records,
              length-drop (start + size) records,
              ltb→lt _ _ more,
            ) in
            rw (e, page, more, walk)
              (gathered _ start
                (walk-drop requests (start + size) _ (page_start-print (start + size)) fewer))
        | inr last ↦
            rw (e, page, last, walk)
              (ap some (take-whole size (drop start records) (ltb_false→le _ _ last)))
      ]

  -- Following the tokens from the first page ends, after at most one request more than there are
  -- records, and gathers every record once, in order. A page has room for a record, and the
  -- notation of an offset is not empty and parses to it.
  pub walk-records : walk decimal records size (suc (length records)) none ≡ some records
  unfolding page_start
  walk-records = walk-drop (length records) 0 none refl (omega arith)
