-- ===== src/Platform/Exports.antt =====
-- libs/platform/src/chatbot_platform/exports.py, over any object store that keeps the contract of the
-- port. `Row` is a row as a dictionary, and a table is the list of its rows; the schema is fixed.
-- Parameters: Parquet and the hash.
use Prim.Native.Char.{Char}
use Prim.Native.String.append
use Prim.Native.String.{[] as []ˢ, ◌∷◌ as ◌∷ˢ◌}
use ai_chatbot.Base.{
  true_ne_false, ℕ, String, ◌<>◌, Bool, true, false, List, length, Result, ok, raise, ◌==◌,
  string_eq, ◌≡◌, refl, sym, ap, ◌∙◌, ok_injective, inl, inr, Bool-cases, ==_iff,
}
use ai_chatbot.Base.State.{M, ◌>>=◌, ◌>>◌, pure, lift, next, >>=-eq-ok, raise_ne_ok}
use ai_chatbot.Platform.Ops.Storage.{object_uri, split_uri, split_uri-object_uri}
use ai_chatbot.Platform.Stores.{ObjectStore, IsLawful}

abbrev pub exports_bucket : String
exports_bucket = "exports"

pub record Export : Type 0 where
  pub uri : String
  pub sha256 : String
  pub rows : ℕ

-- `pq.write_table` and `pq.read_table`, with the hash of bytes.
pub record Parquet (Row Data : Type 0) : Type 0 where
  pub write_table : List Row → Data
  pub read_table : Data → Result (List Row)
  pub sha256_hex : Data → String

abbrev slash : Char
slash = "/"

abbrev is_nonempty : String → Bool
is_nonempty []ˢ = false
is_nonempty (c ∷ˢ s) = true

cons-nonempty : (c : Char) (s : String) → ((c ∷ˢ s) == "") ≡ false
cons-nonempty c s = elim (Bool-cases ((c ∷ˢ s) == "")) [
  | inl same ↦ absurd (true_ne_false (ap is_nonempty ((==_iff (c ∷ˢ s) "").0 same)))
  | inr other ↦ other
]

below-nonempty : (s t : String) → (s <> ("/" <> t) == "") ≡ false
below-nonempty []ˢ t =
    rw (append.nil ("/" <> t), append.cons slash []ˢ t) (cons-nonempty slash ([]ˢ <> t))
below-nonempty (c ∷ˢ s) t = rw (append.cons c s ("/" <> t)) (cons-nonempty c (s <> ("/" <> t)))

-- What a statement gave, where the rest drops it.
value_of_done :
    {S A : Type 0} (p : Result A × S) (a : Unit {0})
    → (next p.0 p.1 (λ _. pure tt)).0 ≡ ok a
    → (v : A) × (p ≡ (ok v, (next p.0 p.1 (λ _. pure tt)).1))
value_of_done (ok v, t) a h = (v, refl)
value_of_done (raise e, t) a h = absurd (raise_ne_ok h)

module _ {Row Data : Type 0} (P : Parquet Row Data) where
  unfoldable pub export_key : String → List Row → String
  export_key name rows = name <> ("/" <> (P.sha256_hex (P.write_table rows) <> ".parquet"))

  abbrev pub export_of : String → List Row → Export
  export_of name rows = record {
    uri = object_uri exports_bucket (export_key name rows);
    sha256 = P.sha256_hex (P.write_table rows);
    rows = length rows;
  }

  split_uri-export :
      (name : String) (rows : List Row)
      → split_uri (object_uri exports_bucket (export_key name rows))
        ≡ ok (exports_bucket, export_key name rows)
  unfolding export_key string_eq
  split_uri-export name rows =
      split_uri-object_uri exports_bucket (export_key name rows) refl refl
        (below-nonempty name (P.sha256_hex (P.write_table rows) <> ".parquet"))

  module _ (O : ObjectStore Data) where
    abbrev pub put_missing : String → Data → Bool → M O.State (Unit {0})
    put_missing key bytes true = pure tt
    put_missing key bytes false = O.put exports_bucket key bytes >>= λ _. pure tt

    unfoldable pub export_rows : String → List Row → M O.State Export
    unfolding export_key object_uri
    export_rows name rows = do
      known ← O.contains_object exports_bucket (export_key name rows)
      put_missing (export_key name rows) (P.write_table rows) known
      pure (export_of name rows)

    unfoldable pub read_export : String → M O.State (List Row)
    unfolding split_uri
    read_export uri = do
      place ← lift (split_uri uri)
      bytes ← O.get place.0 place.1
      lift (P.read_table bytes)

    put_missing_inv :
        (key : String) (bytes : Data) (s : O.State) (a : Unit {0})
        → (put_missing key bytes false s).0 ≡ ok a
        → (uri : String) × (O.put exports_bucket key bytes s
            ≡ (ok uri, (put_missing key bytes false s).1))
    put_missing_inv key bytes s a h = value_of_done (O.put exports_bucket key bytes s) a h

    export_rows_known :
        (name : String) (rows : List Row) (s : O.State) (known : Bool)
        → (O.contains_object exports_bucket (export_key name rows) s).0 ≡ ok known
        → (O.contains_object exports_bucket (export_key name rows) s).1 ≡ s
        → export_rows name rows s
          ≡ (put_missing (export_key name rows) (P.write_table rows) known
                >> pure (export_of name rows))
              s
    unfolding export_rows
    export_rows_known name rows s known found keeps = rw (found, keeps) refl

    read_export_lem :
        (name : String) (rows : List Row) (t : O.State)
        → O.get exports_bucket (export_key name rows) t ≡ (ok (P.write_table rows), t)
        → P.read_table (P.write_table rows) ≡ ok rows
        → read_export (object_uri exports_bucket (export_key name rows)) t ≡ (ok rows, t)
    unfolding read_export
    read_export_lem name rows t got back = rw (split_uri-export name rows, got, back) refl

    -- An export that returns, under a key that was not in use, gives the uri, the hash and the
    -- number of its rows. The rows are read again from that uri, and the same export once more
    -- gives the same and changes nothing. The store keeps the contract of the port, and the table
    -- is read as it was written.
    pub export_rows-read_export :
        (name : String) (rows : List Row) (s t : O.State) (export : Export)
        → IsLawful O
        → P.read_table (P.write_table rows) ≡ ok rows
        → (O.contains_object exports_bucket (export_key name rows) s).0 ≡ ok false
        → export_rows name rows s ≡ (ok export, t)
        → (export ≡ export_of name rows)
          × (read_export export.uri t ≡ (ok rows, t))
          × (export_rows name rows t ≡ (ok export, t))
    export_rows-read_export name rows s t export lawful back fresh h =
        let key = export_key name rows in
        let bytes = P.write_table rows in
        let run =
          sym
            (export_rows_known name rows s false fresh (lawful.contains_keeps exports_bucket key s))
          ∙ h in
        let (a, done, end) =
          >>=-eq-ok (put_missing key bytes false) (λ _. pure (export_of name rows)) s run in
        let (uri, put_) = put_missing_inv key bytes s a done in
        let stored : O.put exports_bucket key bytes s ≡ (ok uri, t) =
          rw (ap (λ p. p.1) end) at put_ in
        let same : export ≡ export_of name rows = ok_injective (ap (λ p. p.0) (sym end)) in
        let has = lawful.put_contains exports_bucket key bytes s t uri stored in
        (
          same,
          rw same (
              read_export_lem name rows t (lawful.put_get exports_bucket key bytes s t uri stored)
                back),
          rw same (export_rows_known name rows t true (ap (λ p. p.0) has) (ap (λ p. p.1) has)),
        )
