-- ===== src/Caslist/Counted.antt =====
-- caslist.c: how many ids a list can have.
use pmbackend.Base.{
  ℕ, ◌+◌, ◌-◌, ◌≤◌, ◌<◌, ◌≡◌, ◌∙◌, sym, Bool, true, false, ◌&&◌, inl, inr, List, [], ◌∷◌, arith,
  ◌==◌, Option,
}
use pmbackend.Caslist.{Caslist, Link, link, caslist_size}
use pmbackend.Caslist.Ranges.{Chain, has, total, member}
use pmbackend.Caslist.Many.{Holds}

-- Ranges from `lo` on whose ids are below `n`.
total-bound :
    (lo n : ℕ) (ls : List Link)
    → Chain lo ls
    → ((x : ℕ) → has ls x ≡ true → x < n)
    → total ls ≤ n - lo
unfolding total has
total-bound lo n [] h below = omega arith
total-bound lo n (l ∷ ls) h below =
    let last : l.end < n = below l.end (ground (arith, h.1)) in
    let rest = total-bound (l.end + 2) n ls h.3 (λ x e. below x (ground (arith, e))) in
    omega (arith, last, rest, h.0, h.1)

-- A list whose ids are positive and below `n` has fewer than `n` of them, or none.
pub caslist_size-bound :
    (ids : ℕ → Bool) (l : Option Caslist) (n : ℕ)
    → Holds ids l
    → ((x : ℕ) → ids x ≡ true → x < n)
    → caslist_size l ≤ n - 1
unfolding caslist_size member
caslist_size-bound ids l n h below = elim h.valid [
  | inl e ↦ rw (h.present, e.size) (omega arith)
  | inr r ↦
      let some_ids : (h.list.begin == 0 && h.list.end == 0) ≡ false = ground (arith, r.chain) in
      rw (h.present, r.size)
        (total-bound 1 n (link h.list.begin h.list.end ∷ h.list.next) r.chain
          (λ x e. below x (sym (h.members x) ∙ rw some_ids e)))
]
