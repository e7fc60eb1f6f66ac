-- ===== src/Telemetry/AllowedKeys.antt =====
-- The result of `parseAllowedServerKeys` of server/internal/baselineintegrity/telemetry/service.go.
use baseline_integrity.Base.{
  ◌≡◌, refl, List, [], ◌∷◌, is_nil, length, All, Option, Text, text_eq, arith, cut, split_at,
  trim_space, inl, inr, Bool-cases, Option-cases,
}
use baseline_integrity.Base.Result.{Result, ok, err, ◌>>=◌}
use baseline_integrity.Telemetry.{set_key, parse_key, parse_keys, parse_allowed_server_keys}

-- A key of the size of an ed25519 public key.
abbrev pub HasKeySize : Text × Text → Type 0
HasKeySize kv = length kv.1 ≡ 32

set_key-All :
    (id v : Text) (m : List (Text × Text))
    → length v ≡ 32
    → All HasKeySize m
    → All HasKeySize (set_key id v m)
unfolding set_key
set_key-All id v [] h k = (h, tt)
set_key-All id v ((j, w) ∷ m) h (a, k) = elim (Bool-cases (text_eq j id)) [
  | inl same ↦ rw same (h, k)
  | inr other ↦ rw other (a, set_key-All id v m h k)
]

-- The step of the loop: an entry that is accepted goes on to the rest.
taken :
    (out : List (Text × Text)) (r : Result (Text × Text))
    (next : Text × Text → Result (List (Text × Text)))
    → ((kv : Text × Text) → r ≡ ok kv → length kv.1 ≡ 32)
    → ((kv : Text × Text) → length kv.1 ≡ 32 → next kv ≡ ok out → All HasKeySize out)
    → (r >>= next) ≡ ok out
    → All HasKeySize out
taken out (err x) next sized later e = cc
taken out (ok kv) next sized later e = later kv (sized kv refl) e

module _ (base64 : Text → Option Text) where
  parse_key-ok :
      (entry : Text) (kv : Text × Text) → parse_key base64 entry ≡ ok kv → length kv.1 ≡ 32
  unfolding parse_key
  parse_key-ok entry kv e = elim (Option-cases (cut b':' entry)) [
    | inl none_found ↦ ground arith
    | inr (parts, found) ↦ elim (Option-cases (base64 (trim_space parts.1))) [
      | inl bad ↦ ground arith
      | inr (v, decoded) ↦ ground arith
    ]
  ]

  parse_keys-ok :
      (ps : List Text) (m out : List (Text × Text))
      → All HasKeySize m
      → parse_keys base64 ps m ≡ ok out
      → All HasKeySize out
  unfolding parse_keys
  parse_keys-ok [] m out h e = let same : m ≡ out = ground arith in rw same at h
  parse_keys-ok (p ∷ ps) m out h e = elim (Bool-cases (is_nil (trim_space p))) [
    | inl blank ↦ parse_keys-ok ps m out h (ground (arith, blank))
    | inr entry ↦
        taken out (parse_key base64 (trim_space p))
          (λ kv. parse_keys base64 ps (set_key kv.0 kv.1 m)) (parse_key-ok (trim_space p))
          (λ kv size. parse_keys-ok ps (set_key kv.0 kv.1 m) out (set_key-All kv.0 kv.1 m size h))
          (ground (arith, entry))
  ]

  -- Whatever the variable holds, a list of keys that is accepted has keys of 32 bytes only.
  pub parse_allowed_server_keys-ok :
      (s : Text) (out : List (Text × Text))
      → parse_allowed_server_keys base64 s ≡ ok out
      → All HasKeySize out
  unfolding parse_allowed_server_keys parse_keys
  parse_allowed_server_keys-ok s out e = elim (Bool-cases (is_nil (trim_space s))) [
    | inl blank ↦ parse_keys-ok [] [] out tt (ground (arith, blank))
    | inr full ↦ parse_keys-ok (split_at b',' (trim_space s)) [] out tt (ground (arith, full))
  ]
