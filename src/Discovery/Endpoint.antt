-- ===== src/Discovery/Endpoint.antt =====
-- The endpoint that a peer is found under, taken apart again.
use grav.Common.{
  ℕ, ◌≡◌, refl, arith, ap, [], ◌∷◌, ◌++◌, some, ite, ℕ_discrete, is_prefix, ◌∙◌, append-nil,
  if◌then◌else◌,
}
use grav.Message.{Bytes}
use grav.Websocket.{ws, ws_scheme, dial_endpoint}
use grav.Discovery.{DiscoveryOpts, Payload, Json, payload_func, endpoint, notify_func}

-- A byte string up to the first `c`, and from it on.
unfoldable pub before : ℕ → Bytes → Bytes
before c [] = []
before c (x ∷ xs) = ite (ℕ_discrete x c) [] (x ∷ before c xs)

unfoldable pub from : ℕ → Bytes → Bytes
from c [] = []
from c (x ∷ xs) = ite (ℕ_discrete x c) (x ∷ xs) (from c xs)

abbrev pub rest : Bytes → Bytes
rest [] = []
rest (x ∷ xs) = xs

-- The host, the port and the path of a URL without its scheme.
abbrev pub split : Bytes → Bytes × Bytes × Bytes
split url = (before b':' url, before b'/' (rest (from b':' url)), from b'/' (rest (from b':' url)))

abbrev pub Lacks : ℕ → Bytes → Type 0
Lacks c xs = before c xs ≡ xs

-- Nothing, or a path from the root.
pub data IsPath : Bytes → Type 0 where
  no_path : IsPath []
  from_root : (xs : Bytes) → IsPath (b'/' ∷ xs)

Lacks-rest : (c x : ℕ) (xs : Bytes) → Lacks c (x ∷ xs) → Lacks c xs
unfolding before
Lacks-rest c x xs l = ground (arith, l)

before-append : (c : ℕ) (xs ys : Bytes) → Lacks c xs → before c (xs ++ (c ∷ ys)) ≡ xs
unfolding before
before-append c [] ys l = ground arith
before-append c (x ∷ xs) ys l = ground (arith, l, before-append c xs ys (Lacks-rest c x xs l))

from-append : (c : ℕ) (xs ys : Bytes) → Lacks c xs → from c (xs ++ (c ∷ ys)) ≡ c ∷ ys
unfolding before from
from-append c [] ys l = ground arith
from-append c (x ∷ xs) ys l = ground (arith, l, from-append c xs ys (Lacks-rest c x xs l))

before-path :
    (port path : Bytes) → Lacks b'/' port → IsPath path → before b'/' (port ++ path) ≡ port
before-path port path l no_path = ap (before b'/') (append-nil port) ∙ l
before-path port path l (from_root xs) = before-append b'/' port xs l

from_nothing : (c : ℕ) (xs : Bytes) → Lacks c xs → from c xs ≡ []
unfolding before from
from_nothing c [] l = refl
from_nothing c (x ∷ xs) l = ground (arith, l, from_nothing c xs (Lacks-rest c x xs l))

from-path : (port path : Bytes) → Lacks b'/' port → IsPath path → from b'/' (port ++ path) ≡ path
from-path port path l no_path = ap (from b'/') (append-nil port) ∙ from_nothing b'/' port l
from-path port path l (from_root xs) = from-append b'/' port xs l

split-endpoint :
    (address : Bytes) (p : Payload)
    → Lacks b':' address
    → Lacks b'/' p.port
    → IsPath p.path
    → split (endpoint address p) ≡ (address, p.port, p.path)
unfolding endpoint
split-endpoint address p l l' q =
    let behind : from b':' (endpoint address p) ≡ b':' ∷ (p.port ++ p.path) =
      from-append b':' address (p.port ++ p.path) l in
    let after : rest (from b':' (endpoint address p)) ≡ p.port ++ p.path = ap rest behind in
    ground (
      arith,
      before-append b':' address (p.port ++ p.path) l,
      after,
      before-path p.port p.path l' q,
      from-path p.port p.path l' q,
    )

is_prefix-endpoint :
    (address : Bytes) (p : Payload) → is_prefix ws (endpoint address p) ≡ is_prefix ws address
unfolding is_prefix endpoint ℕ_discrete
is_prefix-endpoint [] p = refl
is_prefix-endpoint (x ∷ []) p = ground arith
is_prefix-endpoint (x ∷ y ∷ xs) p = refl

-- What a node advertises, and that JSON gives it back.
pub record Advertises (json : Json) (opts : DiscoveryOpts) : Type 0 where
  pub bytes : Bytes
  pub marshalled :
      json.marshal
        (record { uuid = opts.node_uuid; port = opts.transport_port; path = opts.transport_uri })
      ≡ some bytes
  pub unmarshalled :
      json.unmarshal bytes
      ≡ some
          (record { uuid = opts.node_uuid; port = opts.transport_port; path = opts.transport_uri })

-- Where JSON gives back what a node advertises, its port has no slash and its URI is empty or
-- begins with one, a peer that is told of it at an address without a colon finds it under its UUID
-- and an endpoint that splits into the address, the port and the URI, and that is dialled with the
-- scheme `ws://` before it unless the address begins with `ws`.
pub notify_func-payload_func :
    (json : Json) (opts : DiscoveryOpts) (address : Bytes)
    → Advertises json opts
    → Lacks b':' address
    → Lacks b'/' opts.transport_port
    → IsPath opts.transport_uri
    → (found : Bytes) × (notify_func json address (payload_func json opts)
        ≡ some (found, opts.node_uuid))
      × (split found ≡ (address, opts.transport_port, opts.transport_uri))
      × (dial_endpoint found ≡ (if is_prefix ws address then found else ws_scheme ++ found))
unfolding notify_func payload_func dial_endpoint
notify_func-payload_func json opts address a l l' q =
    let p : Payload = record {
      uuid = opts.node_uuid;
      port = opts.transport_port;
      path = opts.transport_uri;
    } in
    (
      endpoint address p,
      ground (arith, a.marshalled, a.unmarshalled),
      split-endpoint address p l l' q,
      ground (arith, is_prefix-endpoint address p),
    )
