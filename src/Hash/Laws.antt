-- ===== src/Hash/Laws.antt =====
-- The hash table is a finite map in which an entry is never replaced.
use lyp_lyl.Prelude.{
  if◌then◌else◌, ◌<◌, ◌≡◌, refl, ◌↔◌, ◌⊎◌, Bool, true, false, not, ◌&&◌, some, [], ◌∷◌, arith,
}
use lyp_lyl.Hash.{
  Key, key_eq, hash_table_size, hash_function, find, HashTable, is_some, hash_insert, hash_lookup,
}

pub key_eq_refl : (k : Key) → key_eq k k ≡ true
unfolding key_eq
key_eq_refl [] = refl
key_eq_refl (c ∷ k) = ground (arith, key_eq_refl k)

pub key_eq_sound : (a b : Key) → key_eq a b ≡ true → a ≡ b
unfolding key_eq
key_eq_sound [] [] h = refl
key_eq_sound [] (d ∷ b) h = cc
key_eq_sound (c ∷ a) [] h = cc
key_eq_sound (c ∷ a) (d ∷ b) h = ground (arith, key_eq_sound a b)

-- Every key's bucket lies inside the table.
pub hash_function-lt : (s : Key) → hash_function s < hash_table_size
unfolding hash_function
hash_function-lt s = omega arith

module _ {A : Type 0} (ht : HashTable A) (key : Key) (d : A) where
  -- The table as a map: after an insertion with memory at hand, a lookup gives the new data for
  -- the inserted key if that key was not in the table, and what it gave before for all else.
  pub hash_lookup-hash_insert :
      (j : Key)
      → hash_lookup (hash_insert true ht key d).0 j
        ≡ (if key_eq key j && not (is_some (hash_lookup ht key)) then some d else hash_lookup ht j)
  unfolding hash_insert hash_lookup find
  hash_lookup-hash_insert j = ground (arith, key_eq_sound key j)

  -- An insertion is refused, and leaves the table as it is, exactly when the key is there already
  -- or memory is short.
  pub hash_insert-refused :
      (allocated : Bool)
      → ((hash_insert allocated ht key d).1 ≡ false)
        ↔ ((is_some (hash_lookup ht key) ≡ true) ⊎ (allocated ≡ false))
  unfolding hash_insert hash_lookup
  hash_insert-refused allocated = (λ h. ground arith, λ h. ground arith)
