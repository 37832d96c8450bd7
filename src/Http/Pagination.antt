-- ===== src/Http/Pagination.antt =====
-- internal/shared/pagination/pagination.go. A query parameter is the text that `url.Values.Get`
-- returns, empty where the query has none. No product leaves the range of a 64-bit integer.
use native.Mathlib.Nat.{mul-le-mul}
use masterfabric_backend.Prelude.{
  ℕ, ◌+◌, ◌-◌, ◌*◌, ◌≤◌, ◌≡◌, Bool, true, ◌&&◌, ◌||◌, not, [], ◌∷◌, ltb, leb, ◌==◌, nat_eq, list_eq,
  if◌then◌else◌, arith,
}
use masterfabric_backend.Prelude.Text.{Text}

abbrev pub max_page : ℕ
max_page = 1000000

pub record Params : Type 0 where
  pub page : ℕ
  pub limit : ℕ

pub is_digit : ℕ → Bool
is_digit c = not (ltb c b'0' || ltb b'9' c)

-- The loop of `atoiSafe`, from the value `n` of what has been read.
atoi_from : ℕ → Text → ℕ
unfolding is_digit
atoi_from n [] = n
atoi_from n (c ∷ s) =
    let m = n * 10 + (c - b'0') in
    let rest = atoi_from m s in
    if is_digit c then (if ltb (max_page * 100) m then 0 else rest) else 0

pub atoi_safe : Text → ℕ
unfolding atoi_from
atoi_safe s = atoi_from 0 s

-- The page that the query asks for, before it is cut at `MaxPage`.
asked_page : Text → ℕ
asked_page v = if v == [] then 1 else (if ltb 0 (atoi_safe v) then atoi_safe v else 1)

asked_limit : Text → ℕ → ℕ
asked_limit v default_limit =
    if v == []
    then default_limit
    else (if ltb 0 (atoi_safe v) && leb (atoi_safe v) 100 then atoi_safe v else default_limit)

pub parse : Text → Text → ℕ → Params
unfolding asked_page asked_limit
parse page limit default_limit = record {
  page = if ltb max_page (asked_page page) then max_page else asked_page page;
  limit = asked_limit limit default_limit;
}

pub offset : Params → ℕ
offset p = (p.page - 1) * p.limit

-- The number that a text of digits spells after `n`.
pub value_from : ℕ → Text → ℕ
value_from n [] = n
value_from n (c ∷ s) = value_from (n * 10 + (c - b'0')) s

pub all_digits : Text → Bool
unfolding is_digit
all_digits [] = true
all_digits (c ∷ s) = is_digit c && all_digits s

value_from_ge : (n : ℕ) (s : Text) → n ≤ value_from n s
unfolding value_from
value_from_ge n [] = omega arith
value_from_ge n (c ∷ s) = omega (arith, value_from_ge (n * 10 + (c - b'0')) s)

atoi_from-value_from :
    (n : ℕ) (s : Text)
    → n ≤ max_page * 100
    → atoi_from n s
      ≡ (if all_digits s && leb (value_from n s) (max_page * 100) then value_from n s else 0)
unfolding atoi_from value_from all_digits
atoi_from-value_from n [] h = ground arith
atoi_from-value_from n (c ∷ s) h =
    ground
      (arith, atoi_from-value_from (n * 10 + (c - b'0')) s, value_from_ge (n * 10 + (c - b'0')) s)

-- `atoiSafe` gives the number that a text of decimal digits spells, where that is at most a
-- hundred times `MaxPage`, and zero for every other text.
pub atoi_safe-value_from :
    (s : Text)
    → atoi_safe s
      ≡ (if all_digits s && leb (value_from 0 s) (max_page * 100) then value_from 0 s else 0)
unfolding atoi_safe
atoi_safe-value_from s = atoi_from-value_from 0 s (omega arith)

asked_page_pos : (v : Text) → 1 ≤ asked_page v
unfolding asked_page
asked_page_pos v = ground arith

page_bounds :
    (page limit : Text) (default_limit : ℕ)
    → (1 ≤ (parse page limit default_limit).page)
      × ((parse page limit default_limit).page ≤ max_page)
unfolding parse
page_bounds page limit default_limit = ground (arith, asked_page_pos page)

limit_bounds :
    (page limit : Text) (default_limit : ℕ)
    → 1 ≤ default_limit
    → default_limit ≤ 100
    → (1 ≤ (parse page limit default_limit).limit) × ((parse page limit default_limit).limit ≤ 100)
unfolding parse asked_limit
limit_bounds page limit default_limit low high = ground arith

offset_le : (p : Params) → p.page ≤ max_page → p.limit ≤ 100 → offset p ≤ max_page * 100
unfolding offset
offset_le p hp hl = let below : p.page - 1 ≤ max_page = omega arith in mul-le-mul below hl

-- Whatever the query holds, the page lies between 1 and `MaxPage`; where the default limit lies
-- between 1 and 100, so does the limit; and the offset is then at most a hundred times `MaxPage`.
pub parse_bounds :
    (page limit : Text) (default_limit : ℕ)
    → 1 ≤ default_limit
    → default_limit ≤ 100
    → (1 ≤ (parse page limit default_limit).page)
      × ((parse page limit default_limit).page ≤ max_page)
      × (1 ≤ (parse page limit default_limit).limit)
      × ((parse page limit default_limit).limit ≤ 100)
      × (offset (parse page limit default_limit) ≤ max_page * 100)
parse_bounds page limit default_limit low high =
    let (low_page, high_page) = page_bounds page limit default_limit in
    let (low_limit, high_limit) = limit_bounds page limit default_limit low high in
    (
      low_page,
      high_page,
      low_limit,
      high_limit,
      offset_le (parse page limit default_limit) high_page high_limit,
    )
