-- ===== src/Socket/Samples.antt =====
-- A carrier of JSON values for the tests: parameters are flat objects, and an identifier is written
-- as the text with that one character.
use cmux_gtk.Prelude.{
  ℕ, ℤ, pos, Str, list_eq, head?, Bool, true, false, Option, none, some, List, [], ◌∷◌, map,
  if◌then◌else◌,
}
use cmux_gtk.Socket.{Json, JsonFloat}

pub data Leaf : Type 0 where
  text : Str → Leaf
  nat : ℕ → Leaf
  flag : Bool → Leaf
  texts : List Str → Leaf

pub data Sample : Type 0 where
  leaf : Leaf → Sample
  fields : List (Str × Leaf) → Sample
  nothing built : Sample

abbrev look_up : List (Str × Leaf) → Str → Option Sample
look_up [] key = none
look_up ((k, v) ∷ more) key = if list_eq k key then some (leaf v) else look_up more key

abbrev sample_get : Sample → Str → Option Sample
sample_get (fields kvs) key = look_up kvs key
sample_get _ key = none

abbrev sample_str : Sample → Option Str
sample_str (leaf (text s)) = some s
sample_str _ = none

abbrev sample_nat : Sample → Option ℕ
sample_nat (leaf (nat n)) = some n
sample_nat _ = none

abbrev sample_int : Sample → Option ℤ
sample_int (leaf (nat n)) = some (pos n)
sample_int _ = none

abbrev sample_bool : Sample → Option Bool
sample_bool (leaf (flag b)) = some b
sample_bool _ = none

abbrev sample_array : Sample → Option (List Sample)
sample_array (leaf (texts ts)) = some (map (λ s. leaf (text s)) ts)
sample_array _ = none

abbrev sample_null : Sample → Bool
sample_null nothing = true
sample_null _ = false

instance abbrev pub sample_json : Json Sample
sample_json = record {
  get = sample_get;
  as_str = sample_str;
  as_u64 = sample_nat;
  as_i64 = sample_int;
  as_bool = sample_bool;
  as_array = sample_array;
  is_null = sample_null;
  null = nothing;
  string = λ s. leaf (text s);
  boolean = λ b. leaf (flag b);
  number = λ n. leaf (nat n);
  array = λ xs. built;
  object = λ kvs. built;
  parse_uuid = head?;
  to_string = λ id. id ∷ [];
}

instance abbrev pub sample_float : JsonFloat Sample ℕ
sample_float = record { as_f64 = sample_nat }
