-- ===== src/Sample/Network.antt =====
-- A concrete stand-in for libp2p and the codec: two CIDs, peers that are texts, queries that are
-- numbered, and a codec that knows the values of a book by their places in it.
use homestar.Prelude.{
  ℕ, zero, suc, length, replicate, not, ◌≡◌, refl, ap, sym, ◌↔◌, Bool, true, false, String, Option,
  none, some, List, [], ◌∷◌, get_elem?, ◌==◌, ==_iff, if◌then◌else◌, arith,
}
use homestar.Prelude.Int.{ℤ}
use homestar.Prelude.Classes.{Eq}
use homestar.Ipld.{Ipld}
use homestar.Foreign.{Foreign, IsForeign}
use homestar.Sample.{serde, serde-IsSerde}
use homestar.Runtime.Handler.{Net, Swarm, Wire, IsWire, same_text}
unfoldable use native.Mathlib.Decide.{ℕ_discrete}

abbrev pub Value : Type 0
Value = Ipld Bool ℕ

text_cases : (a b : String) (x : Bool) → same_text.beq a b ≡ x → Dec (a ≡ b)
text_cases a b true h = yes ((same_text.beq_iff a b).0 h)
text_cases a b false h = no (λ e. cc (h, (same_text.beq_iff a b).1 e))

text_discrete : Discrete String
unfolding text_cases
text_discrete a b = text_cases a b (same_text.beq a b) refl

ℤ-discrete : Discrete ℤ
unfolding ℕ_discrete
ℤ-discrete = hlevel (ℕ_discrete)

bytes_discrete : Discrete (List ℕ)
unfolding ℕ_discrete
bytes_discrete = hlevel (ℕ_discrete)

unfoldable pub Value-discrete : Discrete Value
unfolding bytes_discrete ℤ-discrete text_discrete ℕ_discrete
Value-discrete = hlevel (bytes_discrete, ℤ-discrete, text_discrete, ℕ_discrete)

-- the place_of of a value
abbrev next : Option ℕ → Option ℕ
next none = none
next (some n) = some (suc n)

abbrev place_cons : {x y : Value} → Dec (x ≡ y) → Option ℕ → Option ℕ
place_cons (yes _) rest = some 0
place_cons (no _) rest = next rest

place_of : List Value → Value → Option ℕ
unfolding Value-discrete
place_of [] x = none
place_of (y ∷ ys) x = place_cons (Value-discrete x y) (place_of ys x)

place_cons-eq-some :
    (book : List Value) (x y : Value) (d : Dec (x ≡ y)) (rest : Option ℕ)
    → ((n : ℕ) → rest ≡ some n → get_elem? book n ≡ some x)
    → (n : ℕ) → place_cons d rest ≡ some n
    → get_elem? (y ∷ book) n ≡ some x
place_cons-eq-some book x y (yes e) rest h zero k = ap some (sym e)
place_cons-eq-some book x y (yes e) rest h (suc n) k = cc
place_cons-eq-some book x y (no e) none h n k = cc
place_cons-eq-some book x y (no e) (some m) h zero k = cc
place_cons-eq-some book x y (no e) (some m) h (suc n) k = h n (ground arith)

get_elem?-place_of :
    (book : List Value) (x : Value) (n : ℕ) → place_of book x ≡ some n → get_elem? book n ≡ some x
unfolding place_of
get_elem?-place_of [] x n h = cc
get_elem?-place_of (y ∷ ys) x n h =
    place_cons-eq-some ys x y (Value-discrete x y) (place_of ys x) (get_elem?-place_of ys x) n h

abbrev code_of : Option ℕ → Option (List ℕ)
code_of none = none
code_of (some n) = some (n ∷ [])

unfoldable pub encode : List Value → Value → Option (List ℕ)
unfolding place_of
encode book x = code_of (place_of book x)

abbrev pub decode : List Value → List ℕ → Option Value
decode book [] = none
decode book (n ∷ _) = get_elem? book n

code_of-eq-some :
    (book : List Value) (x : Value) (o : Option ℕ)
    → ((n : ℕ) → o ≡ some n → get_elem? book n ≡ some x)
    → (b : List ℕ) → code_of o ≡ some b
    → decode book b ≡ some x
code_of-eq-some book x none h b k = cc
code_of-eq-some book x (some n) h [] k = cc
code_of-eq-some book x (some n) h (m ∷ ms) k = h m (ground arith)

decode-encode :
    (book : List Value) (x : Value) (b : List ℕ) → encode book x ≡ some b → decode book b ≡ some x
unfolding encode
decode-encode book x b h = code_of-eq-some book x (place_of book x) (get_elem?-place_of book x) b h

-- the two CIDs
abbrev cid_text : Bool → String
cid_text true = "bafyone"
cid_text false = "bafytwo"

abbrev cid_read : String → Option Bool
cid_read t =
    if same_text.beq t "bafyone"
    then some true
    else if same_text.beq t "bafytwo"
    then some false
    else none

abbrev cid_bytes : Bool → List ℕ
cid_bytes true = 1 ∷ []
cid_bytes false = 2 ∷ []

abbrev cid_of_bytes : List ℕ → Option Bool
cid_of_bytes [] = none
cid_of_bytes (n ∷ _) = if n == 1 then some true else if n == 2 then some false else none

abbrev pub foreign : List Value → Foreign Bool ℕ String String
foreign book = record {
  serde = serde;
  principal_to_string = λ p. p;
  principal_from_str = λ t. some t;
  url_to_string = λ u. u;
  url_parse = λ t. some t;
  cid_to_string = cid_text;
  cid_from_str = cid_read;
  cid_to_base32 = λ c. some (cid_text c);
  encode = encode book;
  digest_v1 = λ b. true;
  trim_to_lowercase = λ t. t;
}

cid_read-text : (c : Bool) → cid_read (cid_text c) ≡ some c
cid_read-text true = refl
cid_read-text false = refl

pub foreign-IsForeign : (book : List Value) → IsForeign (foreign book)
foreign-IsForeign book = record {
  serde = serde-IsSerde;
  principal_text = λ p. refl;
  url_text = λ u. refl;
  cid_text = cid_read-text;
}

abbrev pub same_number : Eq ℕ
same_number = record { beq = λ a b. a == b; beq_iff = ==_iff }

abbrev pub net : Net
net = record {
  Peer = String;
  Address = String;
  Endpoint = String;
  Query = ℕ;
  Request = ℕ;
  Channel = ℕ;
  Cookie = String;
  Sender = ℕ;
  eq_peer = same_text;
  eq_query = same_number;
  eq_request = same_number;
}

-- the version of the CIDs that are equal
abbrev same_bit : Bool → Bool → Bool
same_bit true b = b
same_bit false b = not b

pub same_bit_iff : (a b : Bool) → (same_bit a b ≡ true) ↔ (a ≡ b)
same_bit_iff true true = (λ _. refl, λ _. refl)
same_bit_iff true false = (λ h. cc h, λ h. cc h)
same_bit_iff false true = (λ h. cc h, λ h. cc h)
same_bit_iff false false = (λ _. refl, λ _. refl)

abbrev pub same_cid : Eq Bool
same_cid = record { beq = same_bit; beq_iff = same_bit_iff }

-- a swarm that accepts every call
abbrev pub swarm : Swarm net
swarm = record {
  query_id = λ calls. length calls;
  request_id = λ calls. length calls;
  accepted = λ calls. true;
  mesh_peers = λ calls topic. true;
  external_addresses = λ calls. 0;
  listeners = λ calls. [];
  has_node = λ calls p. true;
  local_peer_id = "local";
  gossipsub = true;
  rendezvous_client = true;
  mdns = true;
  get_remote_address = λ endpoint. endpoint;
  peer_id = λ addr. some addr;
  is_private = λ addr. false;
  namespace = λ cookie. some cookie;
  peer_to_string = λ p. p;
}

abbrev pub wire : List Value → Wire Bool ℕ net
wire book = record {
  cid_to_bytes = cid_bytes;
  cid_try_from = cid_of_bytes;
  decode = decode book;
  decode_error = λ b. none;
  encode_error = λ failure. some [];
  xid = λ calls. replicate 12 0;
  conn = λ calls. true;
}

cid_of_bytes-bytes : (c : Bool) → cid_of_bytes (cid_bytes c) ≡ some c
cid_of_bytes-bytes true = refl
cid_of_bytes-bytes false = refl

pub wire-IsWire : (book : List Value) → IsWire (foreign book) (wire book)
wire-IsWire book = record {
  cid_bytes = cid_of_bytes-bytes;
  decodes = decode-encode book;
  no_error = λ m b h. refl;
}
