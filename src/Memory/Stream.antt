-- ===== src/Memory/Stream.antt =====
-- A stream that holds items: each byte of a key or value as its successor, ended by 0, and the
-- expiry behind them.
use honeybadger.Base.{zero, suc, Bytes, ◌≡◌, refl, ◌∙◌, ap, List, [], ◌∷◌, ◌++◌, map}
use mathlib.Core.List.{append-nil, append_assoc}
use honeybadger.Badger.{Stored}

abbrev pub Items : Type 0
Items = List (Bytes × Stored)

-- Where the reader stands: in a key, in a value, or at an expiry.
pub data Mode : Type 0 where
  in_key : Bytes → Mode
  in_value : Bytes → Bytes → Mode
  at_expiry : Bytes → Bytes → Mode

unfoldable pub read_items : Mode → Bytes → Items
read_items mode [] = []
read_items (in_key k) (zero ∷ bs) = read_items (in_value k []) bs
read_items (in_key k) (suc b ∷ bs) = read_items (in_key (k ++ (b ∷ []))) bs
read_items (in_value k v) (zero ∷ bs) = read_items (at_expiry k v) bs
read_items (in_value k v) (suc b ∷ bs) = read_items (in_value k (v ++ (b ∷ []))) bs
read_items (at_expiry k v) (t ∷ bs) =
    (k, record { value = v; expires_at = t }) ∷ read_items (in_key []) bs

unfoldable pub decode_items : Bytes → Items
unfolding read_items
decode_items bs = read_items (in_key []) bs

unfoldable pub encode_items : Items → Bytes
encode_items [] = []
encode_items ((k, x) ∷ items) =
    map suc k ++ (zero ∷ (map suc x.value ++ (zero ∷ (x.expires_at ∷ encode_items items))))

read_key :
    (k acc rest : Bytes)
    → read_items (in_key acc) (map suc k ++ (zero ∷ rest))
      ≡ read_items (in_value (acc ++ k) []) rest
unfolding read_items
read_key [] acc rest = rw append-nil
read_key (b ∷ k) acc rest = read_key k (acc ++ (b ∷ [])) rest ∙ rw append_assoc

read_to_value :
    (v k acc rest : Bytes)
    → read_items (in_value k acc) (map suc v ++ (zero ∷ rest))
      ≡ read_items (at_expiry k (acc ++ v)) rest
unfolding read_items
read_to_value [] k acc rest = rw append-nil
read_to_value (b ∷ v) k acc rest = read_to_value v k (acc ++ (b ∷ [])) rest ∙ rw append_assoc

pub decode-encode_items : (items : Items) → decode_items (encode_items items) ≡ items
unfolding decode_items encode_items
decode-encode_items [] = refl
decode-encode_items ((k, x) ∷ items) =
    let end = zero ∷ (x.expires_at ∷ encode_items items) in
    read_key k [] (map suc x.value ++ end)
    ∙ read_to_value x.value k [] (x.expires_at ∷ encode_items items)
    ∙ ap (◌∷◌ (k, x)) (decode-encode_items items)
