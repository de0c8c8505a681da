-- ===== src/Hub/Keys.antt =====
-- The keys of the table of connections.
use grav.Common.{
  ◌≡◌, refl, arith, String, [], ◌∷◌, some, ite, string_discrete, Map, lookup, insert, delete,
  lookup-insert, lookup-delete,
}
use grav.ConnectionHandler.{ConnectionHandler}
use grav.Hub.Scan.{IsKeyed}

pub IsKeyed-insert :
    (k : String) (c : ConnectionHandler) (m : Map ConnectionHandler)
    → c.uuid ≡ k
    → IsKeyed m
    → IsKeyed (insert k c m)
unfolding insert lookup
IsKeyed-insert k c [] e i = (e, refl, tt)
IsKeyed-insert k c ((j, d) ∷ m) e (same, new, i) =
    elim (string_discrete j k) as (λ dec. IsKeyed (ite dec ((k, c) ∷ m) ((j, d) ∷ insert k c m))) [
      | yes s ↦ (e, ground (arith, new, s), i)
      | no n ↦ (same, ground (arith, lookup-insert k j c m, new, n), IsKeyed-insert k c m e i)
    ]

pub IsKeyed-delete : (k : String) (m : Map ConnectionHandler) → IsKeyed m → IsKeyed (delete k m)
unfolding delete
IsKeyed-delete k [] i = i
IsKeyed-delete k ((j, d) ∷ m) (same, new, i) =
    elim (string_discrete j k) as (λ dec. IsKeyed (ite dec (delete k m) ((j, d) ∷ delete k m))) [
      | yes s ↦ IsKeyed-delete k m i
      | no n ↦ (same, ground (arith, lookup-delete k j m, new), IsKeyed-delete k m i)
    ]

pub uuid_of :
    (m : Map ConnectionHandler) (k : String) (c : ConnectionHandler)
    → IsKeyed m
    → lookup k m ≡ some c
    → c.uuid ≡ k
unfolding lookup
uuid_of [] k c i e = ground arith
uuid_of ((j, d) ∷ m) k c (same, new, i) e = ground (arith, uuid_of m k c i)
