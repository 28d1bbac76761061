-- ===== src/Caslist/Ranges.antt =====
-- What a caslist stands for: a set of ids, as sorted ranges that neither overlap nor touch.
use pmbackend.Base.{
  ℕ, ◌+◌, ◌-◌, ◌≤◌, ◌<◌, ◌≡◌, ◌⊎◌, inl, inr, Bool, true, false, ◌&&◌, ◌||◌, List, [], ◌∷◌, arith,
  leb, ◌==◌, if◌then◌else◌, two64,
}
use pmbackend.Caslist.{Link, link, Caslist}

-- The largest `uint64_t`; ids stay below it, so that `begin++` cannot wrap around.
abbrev pub limit : ℕ
limit = two64 - 1

abbrev pub within : Link → ℕ → Bool
within l x = leb l.begin x && leb x l.end

unfoldable pub has : List Link → ℕ → Bool
has [] x = false
has (l ∷ ls) x = within l x || has ls x

-- how many ids
unfoldable pub total : List Link → ℕ
total [] = 0
total (l ∷ ls) = (l.end + 1 - l.begin) + total ls

-- Ranges from `lo` on, in order, with at least one id missing between two of them.
abbrev pub Chain : ℕ → List Link → Type 0
Chain lo [] = Unit
Chain lo (l ∷ ls) = (lo ≤ l.begin) × (l.begin ≤ l.end) × (l.end < limit) × Chain (l.end + 2) ls

-- The list without ids.
pub record IsEmpty (c : Caslist) : Type 0 where
  pub begin : c.begin ≡ 0
  pub end : c.end ≡ 0
  pub next : c.next ≡ []
  pub size : c.size ≡ 0

-- A list with ids: positive, in order, and counted by `size`.
pub record IsRanges (c : Caslist) : Type 0 where
  pub chain : Chain 1 (link c.begin c.end ∷ c.next)
  pub size : c.size ≡ total (link c.begin c.end ∷ c.next)

abbrev pub IsValid : Caslist → Type 0
IsValid c = IsEmpty c ⊎ IsRanges c

-- `x` is an id of the list
unfoldable pub member : Caslist → ℕ → Bool
unfolding has
member c x = if c.begin == 0 && c.end == 0 then false else has (link c.begin c.end ∷ c.next) x

pub has-below : (lo x : ℕ) (ls : List Link) → Chain lo ls → x < lo → has ls x ≡ false
unfolding has
has-below lo x [] h b = ground arith
has-below lo x (l ∷ ls) h b = ground (arith, has-below (l.end + 2) x ls)

total-le : (lo : ℕ) (ls : List Link) → Chain lo ls → lo ≤ limit + 1 → total ls + lo ≤ limit + 2
unfolding total
total-le lo [] h b = omega arith
total-le lo (l ∷ ls) h b = omega (arith, total-le (l.end + 2) ls)

-- The number of ids fits into the `size` field.
pub total_fits : (l : Link) (ls : List Link) → Chain 1 (l ∷ ls) → total (l ∷ ls) < two64
unfolding total
total_fits l ls h = omega (arith, total-le (l.end + 2) ls)

has_range : (lo x : ℕ) (ls : List Link) → Chain lo ls → has ls x ≡ true → (lo ≤ x) × (x < limit)
unfolding has
has_range lo x [] h e = cc
has_range lo x (l ∷ ls) h e = ground (arith, has_range (l.end + 2) x ls)

-- The ids of a valid list are positive and below the limit.
pub member_range : (c : Caslist) (x : ℕ) → IsValid c → member c x ≡ true → (0 < x) × (x < limit)
unfolding member
member_range c x (inl v) e = ground arith
member_range c x (inr v) e = ground (arith, has_range 1 x (link c.begin c.end ∷ c.next) v.chain)
