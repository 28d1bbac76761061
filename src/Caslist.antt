-- ===== src/Caslist.antt =====
-- caslist.c: the list of id ranges behind the free lists, the object lists and the list of free
-- transaction slots. Each operation runs under the list's mutex, so it is one step here; the links
-- belong to their list alone, so the `next` chain is a list. A `NULL` list is `none`.
pub mod Ranges
pub mod Push
pub mod Pop
pub mod Canonical
pub mod Many
pub mod Counted
use pmbackend.Base.{
  ℕ, Bool, true, false, ◌&&◌, Option, none, some, List, [], ◌∷◌, ◌-◌, ltb, leb, ◌==◌, if◌then◌else◌,
  succ64, pred64,
}

-- caslist_link, whose `next` pointer is its place in a list
pub record Link : Type 0 where
  pub begin : ℕ
  pub end : ℕ

abbrev pub link : ℕ → ℕ → Link
link b e = record { begin = b; end = e }

-- caslist; `size` is the bit pattern of the `ssize_t`
pub record Caslist : Type 0 where
  pub size : ℕ
  pub begin : ℕ
  pub end : ℕ
  pub next : List Link

-- `allocated` says whether `malloc` gave memory
unfoldable pub caslist_new : Bool → ℕ → ℕ → Option Caslist
caslist_new allocated b e =
    if ltb e b
    then none
    else if b == 0 && ltb 0 e
    then none
    else if allocated
    then some (record {
      size = if b == 0 && e == 0 then 0 else succ64 (e - b);
      begin = b;
      end = e;
      next = [];
    })
    else none

-- The next range moves into the head, or the head becomes empty.
unfoldable pub advance : ℕ → ℕ → List Link → Caslist
advance s e [] = record { size = s; begin = 0; end = 0; next = [] }
advance s e (l ∷ ls) = record { size = s; begin = l.begin; end = l.end; next = ls }

pub record Popped : Type 0 where
  pub code : ℕ
  pub val : ℕ
  pub list : Caslist

-- caslist_pop on a list that is there: the return code, `*val` and the list
unfoldable pub pop : Caslist → Popped
unfolding advance
pop c = if c.begin == 0 && c.end == 0 then record { code = 1; val = 0; list = c } else record {
  code = 0;
  val = c.begin;
  list =
      if ltb c.end (succ64 c.begin)
      then advance (pred64 c.size) c.end c.next
      else record c { begin = succ64 c.begin; size = pred64 c.size };
}

-- After `end++`: the range takes in the next one when the two now touch.
unfoldable pub merge : Link → List Link → List Link
merge l [] = l ∷ []
merge l (n ∷ ls) = if succ64 l.end == n.begin then link l.begin n.end ∷ ls else l ∷ n ∷ ls

-- What follows a range that ends before `val`; `deeper` is the call of `_caslist_put` on `next`.
unfoldable pub put_after : List Link → ℕ → List Link × Bool → List Link × Bool
put_after [] val deeper = (link val val ∷ [], true)
put_after (n ∷ ls) val deeper =
    if ltb val (pred64 n.begin) then (link val val ∷ n ∷ ls, true) else deeper

-- _caslist_put; it is never called with a `NULL` link
unfoldable pub put : List Link → ℕ → List Link × Bool
unfolding merge put_after
put [] val = ([], false)
put (l ∷ ls) val =
    let after = put_after ls val (put ls val) in
    if leb l.begin val && leb val l.end
    then (l ∷ ls, false)
    else if val == pred64 l.begin
    then (link (pred64 l.begin) l.end ∷ ls, true)
    else if val == succ64 l.end
    then (merge (link l.begin (succ64 l.end)) ls, true)
    else (l ∷ after.0, after.1)

-- The first range and the chain behind it, as fields of the list.
abbrev pub with_ranges : ℕ → List Link → Caslist
with_ranges s [] = record { size = s; begin = 0; end = 0; next = [] }
with_ranges s (l ∷ ls) = record { size = s; begin = l.begin; end = l.end; next = ls }

-- caslist_push on a list that is there
unfoldable pub push : Caslist → ℕ → Caslist
unfolding merge put_after put
push c val =
    let after = put_after c.next val (put c.next val) in
    let bigger = succ64 c.size in
    if val == 0
    then c
    else if leb c.begin val && leb val c.end
    then c
    else if c.begin == 0 && c.end == 0
    then record c { begin = val; end = val; size = bigger }
    else if val == pred64 c.begin
    then record c { begin = pred64 c.begin; size = bigger }
    else if val == succ64 c.end
    then with_ranges bigger (merge (link c.begin (succ64 c.end)) c.next)
    else if ltb val (pred64 c.begin)
    then record { size = bigger; begin = val; end = val; next = link c.begin c.end ∷ c.next }
    else record c { next = after.0; size = if after.1 then bigger else c.size }

-- The entry points, with their test for `NULL`; `val` is what `*val` holds before the call.
unfoldable pub caslist_pop : Option Caslist → ℕ → ℕ × ℕ × Option Caslist
unfolding pop
caslist_pop none val = (1, val, none)
caslist_pop (some c) val = let r = pop c in (r.code, r.val, some r.list)

unfoldable pub caslist_push : Option Caslist → ℕ → Option Caslist
unfolding push
caslist_push none val = none
caslist_push (some c) val = some (push c val)

unfoldable pub caslist_size : Option Caslist → ℕ
caslist_size none = 0
caslist_size (some c) = c.size
