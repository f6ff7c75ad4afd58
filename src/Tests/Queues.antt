-- ===== src/Tests/Queues.antt =====
-- A queue of numbers, the least first.
use lyp_lyl.Prelude.{
  ltb, if◌then◌else◌, ℕ, ◌≤◌, ◌<◌, ◌≡◌, refl, ◌⊎◌, true, false, Option, none, some, arith,
}
use lyp_lyl.Prelude.Int.{ℤ, pos, negsuc}
use lyp_lyl.Pqueue.{
  heapify, pqueue_extract, sift_up, pqueue_insert, pqueue_peek, pqueue_create, Pqueue,
}
use lyp_lyl.Pqueue.Order.{Ranks}
use lyp_lyl.Pqueue.Laws.{
  pqueue_insert-Adds, pqueue_insert-IsValid, pqueue_extract-Removes, pqueue_extract-in_order,
  pqueue_create-IsValid, IsValid, Adds, Removes,
}

abbrev by_number : ℕ → ℕ → ℤ
by_number a b = if ltb a b then pos 1 else if ltb b a then negsuc 0 else pos 0

abbrev same : ℕ → ℕ
same a = a

by_number-Ranks : Ranks by_number same
by_number-Ranks = record { positive = λ a b. ground arith; negative = λ a b. ground arith }

-- Room for one entry, so that the second insertion grows the array.
abbrev no_numbers : Pqueue ℕ
no_numbers = pqueue_create by_number 1 0

abbrev one_number : Pqueue ℕ
one_number = (pqueue_insert by_number true no_numbers 7).0

abbrev two_numbers : Pqueue ℕ
two_numbers = (pqueue_insert by_number true one_number 3).0

abbrev three_numbers : Pqueue ℕ
three_numbers = (pqueue_insert by_number true two_numbers 5).0

abbrev taken : Pqueue ℕ → Option ℕ
taken q = (pqueue_extract by_number q).1

abbrev left_over : Pqueue ℕ → Pqueue ℕ
left_over q = (pqueue_extract by_number q).0

in_order_test :
    (taken three_numbers ≡ some 3)
    × ((taken (left_over three_numbers) ≡ some 5)
        × ((taken (left_over (left_over three_numbers)) ≡ some 7)
            × (taken (left_over (left_over (left_over three_numbers))) ≡ none)))
unfolding pqueue_insert pqueue_extract pqueue_create sift_up heapify
in_order_test = (refl, (refl, (refl, refl)))

no_numbers-IsValid : IsValid same no_numbers
no_numbers-IsValid = pqueue_create-IsValid same by_number 1 0 (omega arith)

one_number-IsValid : IsValid same one_number
one_number-IsValid =
    pqueue_insert-IsValid same by_number by_number-Ranks true no_numbers 7 no_numbers-IsValid

two_numbers-IsValid : IsValid same two_numbers
two_numbers-IsValid =
    pqueue_insert-IsValid same by_number by_number-Ranks true one_number 3 one_number-IsValid

pqueue_insert-Adds_example :
    ((pqueue_insert by_number true one_number 3).1 ≡ true × Adds same one_number 3 two_numbers)
    ⊎ (pqueue_insert by_number true one_number 3 ≡ (one_number, false)
        × (true ≡ false × one_number.len ≡ one_number.max))
pqueue_insert-Adds_example =
    pqueue_insert-Adds same by_number by_number-Ranks true one_number 3 one_number-IsValid

pqueue_extract-Removes_example :
    (taken two_numbers ≡ pqueue_peek by_number two_numbers)
    × ((pqueue_peek by_number two_numbers ≡ some (two_numbers.cells 0))
        × (((i : ℕ) → i < two_numbers.len → two_numbers.cells 0 ≤ two_numbers.cells i)
            × Removes same by_number by_number-Ranks two_numbers
                (two_numbers.cells 0)
                (left_over two_numbers)))
unfolding pqueue_insert pqueue_create
pqueue_extract-Removes_example =
    pqueue_extract-Removes same by_number by_number-Ranks two_numbers two_numbers-IsValid
      (omega arith)

pqueue_extract-in_order_test :
    (a : ℕ) × ((b : ℕ) × ((taken two_numbers ≡ some a)
        × ((taken (left_over two_numbers) ≡ some b) × (a ≤ b))))
unfolding pqueue_insert pqueue_create
pqueue_extract-in_order_test =
    pqueue_extract-in_order same by_number by_number-Ranks two_numbers two_numbers-IsValid
      (omega arith)
