-- ===== src/Memory/Codec.antt =====
-- A codec for commands in place of gob: 1 and a pair, or 2 and a key, each byte as its successor.
use honeybadger.Base.{zero, suc, Bytes, ◌≡◌, refl, ◌∙◌, List, [], ◌∷◌, ◌++◌, map, arith}
use mathlib.Core.List.{append-nil, append_assoc}
use honeybadger.Errors.{Result, ok, err, foreign, other, ◌>>=◌}
use honeybadger.Command.{CommandPair, Command, Gob, GobLaws}

-- Where the reader stands.
pub data Mode : Type 0 where
  at_tag : Mode
  in_key : Bytes → Mode
  in_value : Bytes → Bytes → Mode
  at_expiry : Bytes → Bytes → Mode
  in_delete : Bytes → Mode

abbrev pub add_pair : CommandPair → Command → Command
add_pair p c = record c { pairs = p ∷ c.pairs }

abbrev pub add_delete : Bytes → Command → Command
add_delete k c = record c { deletes = k ∷ c.deletes }

unfoldable pub read_command : Mode → Bytes → Result Command
read_command at_tag [] = ok (record { pairs = []; deletes = [] })
read_command at_tag (suc zero ∷ bs) = read_command (in_key []) bs
read_command at_tag (suc (suc zero) ∷ bs) = read_command (in_delete []) bs
read_command at_tag (t ∷ bs) = err (foreign (other 7))
read_command (in_key k) (zero ∷ bs) = read_command (in_value k []) bs
read_command (in_key k) (suc b ∷ bs) = read_command (in_key (k ++ (b ∷ []))) bs
read_command (in_value k v) (zero ∷ bs) = read_command (at_expiry k v) bs
read_command (in_value k v) (suc b ∷ bs) = read_command (in_value k (v ++ (b ∷ []))) bs
read_command (at_expiry k v) (t ∷ bs) = do
  c ← read_command at_tag bs
  ok (add_pair (record { key = k; value = v; expires_at_unix = t }) c)
read_command (in_delete k) (zero ∷ bs) = do c ← read_command at_tag bs; ok (add_delete k c)
read_command (in_delete k) (suc b ∷ bs) = read_command (in_delete (k ++ (b ∷ []))) bs
read_command mode [] = err (foreign (other 8))

unfoldable pub write_deletes : List Bytes → Bytes
write_deletes [] = []
write_deletes (k ∷ ks) = 2 ∷ (map suc k ++ (zero ∷ write_deletes ks))

unfoldable pub write_pairs : List CommandPair → Bytes → Bytes
write_pairs [] rest = rest
write_pairs (p ∷ ps) rest =
    1
    ∷ (map suc p.key
        ++ (zero ∷ (map suc p.value ++ (zero ∷ (p.expires_at_unix ∷ write_pairs ps rest)))))

abbrev pub codec : Gob
codec = record {
  encode = λ c. ok (write_pairs c.pairs (write_deletes c.deletes));
  decode = λ bs. read_command at_tag bs;
}

read_key :
    (k acc rest : Bytes)
    → read_command (in_key acc) (map suc k ++ (zero ∷ rest))
      ≡ read_command (in_value (acc ++ k) []) rest
unfolding read_command
read_key [] acc rest = rw append-nil
read_key (b ∷ k) acc rest = read_key k (acc ++ (b ∷ [])) rest ∙ rw append_assoc

read_to_value :
    (v k acc rest : Bytes)
    → read_command (in_value k acc) (map suc v ++ (zero ∷ rest))
      ≡ read_command (at_expiry k (acc ++ v)) rest
unfolding read_command
read_to_value [] k acc rest = rw append-nil
read_to_value (b ∷ v) k acc rest = read_to_value v k (acc ++ (b ∷ [])) rest ∙ rw append_assoc

read_delete :
    (k acc rest : Bytes)
    → read_command (in_delete acc) (map suc k ++ (zero ∷ rest))
      ≡ (read_command at_tag rest >>= λ c. ok (add_delete (acc ++ k) c))
unfolding read_command
read_delete [] acc rest = rw append-nil
read_delete (b ∷ k) acc rest = read_delete k (acc ++ (b ∷ [])) rest ∙ rw append_assoc

read_deletes :
    (ks : List Bytes)
    → read_command at_tag (write_deletes ks) ≡ ok (record { pairs = []; deletes = ks })
unfolding read_command write_deletes
read_deletes [] = refl
read_deletes (k ∷ ks) = read_delete k [] (write_deletes ks) ∙ rw (read_deletes ks)

read_pairs :
    (ps : List CommandPair) (ks : List Bytes)
    → read_command at_tag (write_pairs ps (write_deletes ks))
      ≡ ok (record { pairs = ps; deletes = ks })
unfolding read_command write_pairs
read_pairs [] ks = read_deletes ks
read_pairs (p ∷ ps) ks =
    let more = write_pairs ps (write_deletes ks) in
    read_key p.key [] (map suc p.value ++ (zero ∷ (p.expires_at_unix ∷ more)))
    ∙ read_to_value p.value p.key [] (p.expires_at_unix ∷ more)
    ∙ rw (read_pairs ps ks)

pub decode_encoded : (c : Command) (b : Bytes) → codec.encode c ≡ ok b → codec.decode b ≡ ok c
decode_encoded c b h = ground (arith, read_pairs c.pairs c.deletes)

abbrev pub codec_laws : GobLaws codec
codec_laws = record { decode-encode = decode_encoded }
