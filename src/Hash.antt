-- ===== src/Hash.antt =====
-- hash.c: a hash table of 200 chains, keyed by C strings. A key is the list of its bytes without
-- the final zero; a bucket is the list of its nodes, first node first. `char` is signed, as on the
-- platforms that the program is built for.
pub mod Laws
use lyp_lyl.Prelude.{
  ltb, ◌==◌, if◌then◌else◌, ℕ, ◌+◌, ◌-◌, ◌*◌, ◌%◌, ◌^◌, Bool, true, false, ◌&&◌, Option, none, some,
  List, [], ◌∷◌,
}
use lyp_lyl.Prelude.Memory.{write}

abbrev pub Key : Type 0
Key = List ℕ

-- strcmp(a, b) == 0
unfoldable pub key_eq : Key → Key → Bool
key_eq [] [] = true
key_eq [] (d ∷ b) = false
key_eq (c ∷ a) [] = false
key_eq (c ∷ a) (d ∷ b) = (c == d) && key_eq a b

abbrev pub hash_table_size : ℕ
hash_table_size = 200

-- A char as the 32 bit word that it is converted to.
abbrev sign_extend : ℕ → ℕ
sign_extend c = if ltb c 128 then c else c + (2 ^ 32 - 256)

-- The loop over the string, from the running value `i`.
unfoldable pub hash_loop : ℕ → Key → ℕ
hash_loop i [] = i
hash_loop i (c ∷ s) = hash_loop ((131 * i + sign_extend c) % 2 ^ 32) s

unfoldable pub hash_function : Key → ℕ
hash_function s = hash_loop 0 s % hash_table_size

module _ {A : Type 0} where
  -- The walk along a chain for a key.
  unfoldable pub find : List (Key × A) → Key → Option A
  find [] key = none
  find ((k, d) ∷ n) key = if key_eq k key then some d else find n key

abbrev pub HashTable : Type 0 → Type 0
HashTable A = ℕ → List (Key × A)

module _ {A : Type 0} where
  unfoldable pub hash_create : HashTable A
  hash_create h = []

  abbrev pub is_some : Option A → Bool
  is_some none = false
  is_some (some d) = true

  -- `allocated`: calloc and strdup succeed. The answer is true for the return value 0.
  unfoldable pub hash_insert : Bool → HashTable A → Key → A → HashTable A × Bool
  hash_insert allocated ht key d =
      let h = hash_function key in
      if is_some (find (ht h) key)
      then (ht, false)
      else if allocated
      then (write ht h ((key, d) ∷ ht h), true)
      else (ht, false)

  unfoldable pub hash_lookup : HashTable A → Key → Option A
  hash_lookup ht key = find (ht (hash_function key)) key
