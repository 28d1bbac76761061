-- ===== src/Tests/Lists.antt =====
-- The lists of ids.
use pmbackend.Base.{ℕ, ◌≡◌, refl, inr, ◌||◌, arith, ◌==◌}
use pmbackend.Caslist.{Caslist, push, pop}
use pmbackend.Caslist.Ranges.{IsValid, member}
use pmbackend.Caslist.Push.{push-IsValid}
use pmbackend.Caslist.Pop.{TakesLeast, pop-TakesLeast}
use pmbackend.Tests.Data.{few, few-IsRanges}

-- 3 joins the ranges' first one, and 4 closes the gap.
abbrev closed : Caslist
closed = record { size = 4; begin = 1; end = 3; next = few.next }

push_test : push few 3 ≡ closed
unfolding push
push_test = refl

pop_test : (pop few).val ≡ 1
unfolding pop
pop_test = refl

push-IsValid_example :
    IsValid (push few 3) × ((x : ℕ) → member (push few 3) x ≡ (x == 3) || member few x)
push-IsValid_example = push-IsValid few 3 (inr few-IsRanges) (omega arith) (omega arith)

pop-TakesLeast_example : TakesLeast few (pop few)
pop-TakesLeast_example = pop-TakesLeast few few-IsRanges

refilled : push (pop few).list 1 ≡ few
unfolding pop push
refilled = refl

refilled-IsValid : IsValid (push (pop few).list 1)
refilled-IsValid = rw refilled (inr few-IsRanges)
