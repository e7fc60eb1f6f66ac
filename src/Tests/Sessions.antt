-- ===== src/Tests/Sessions.antt =====
-- A session from its opening to the checks of its token.
use baseline_integrity.Base.{
  ℕ, ◌+◌, ◌*◌, ◌↔◌, ◌≡◌, refl, true, false, none, some, ◌++◌, is_nil, length, Text, codes, tabulate,
  arith, text_eq,
}
use baseline_integrity.Base.Result.{ok}
use baseline_integrity.Proto.{
  tier_eq, tier_open, tier_verified, SessionRef, SignedEnvelope, TierToken, StartSessionRequest,
  StartSessionResponse, unix_epoch, second, new_timestamp, as_time,
}
use baseline_integrity.Crypto.{Signer, IsKeyPair, new_nonce32, sign}
use baseline_integrity.Token.{IsGenuine}
use baseline_integrity.Verify.{PublicKeySet, key_of, verify_tier_token_offline}
use baseline_integrity.Verify.Soundness.{
  verify_tier_token_offline_sound, verify_tier_token_offline_complete,
}
use baseline_integrity.Trust.{
  start_session, introspect_tier_token, get_public_keys, session_lifetime, session_id_of,
  match_id_of, v1_policy,
}
use baseline_integrity.Trust.Introspection.{granted, introspect_tier_token_sound}
use baseline_integrity.Trust.Sessions.{Encodes, IsOpenSession, start_session_sound}
use baseline_integrity.Trust.Agreement.{
  server_of, published, offline_iff_online, start_session-total, start_session-accepted,
}
use baseline_integrity.Tests.Wire.{
  pad, toy_crypto, toy_crypto-IsLawful, flatten, token_words, token_codec, token_codec-RoundTrips,
}

abbrev host : Signer
host = record {
  key_id = codes "k1";
  priv = tabulate 64 (λ i. i);
  pub_key = pad 32 (tabulate 64 (λ i. i));
}

host-IsKeyPair : IsKeyPair toy_crypto (λ i. i) host
unfolding tabulate
host-IsKeyPair = record { priv-eq = refl; pub_key-eq = refl }

abbrev session : SessionRef
session = record { session_id = codes "s"; match_id = codes "m"; player_id = codes "p" }

abbrev asking : StartSessionRequest
asking = record { ref = some session; game_build_id = codes "b"; requested_tier = tier_verified }

encoded : (t : TierToken) → t.ref ≡ some session → is_nil (flatten (token_words t)) ≡ false
unfolding flatten
encoded t e = rw e

asking-Encodes : Encodes token_codec asking
asking-Encodes t e unsigned = (flatten (token_words t), refl, encoded t e)

abbrev opening : ℕ
opening = unix_epoch + 1_000 * second

-- What the opening of this session returns, when the random source yields sevens.
abbrev opened_token : TierToken
opened_token = record {
  ref = some session;
  tier = tier_open;
  nonce_hash = pad 32 (tabulate 32 (λ i. 7));
  issued_at = some (new_timestamp opening);
  expires_at = some (new_timestamp (opening + session_lifetime));
  signature = none;
}

abbrev payload : Text
payload = flatten (token_words opened_token)

abbrev envelope : SignedEnvelope
envelope = record {
  key_id = codes "k1";
  payload = payload;
  signature = pad 64 (pad 32 (tabulate 64 (λ i. i)) ++ payload);
  signed_at = some (new_timestamp opening);
}

abbrev sealed_token : TierToken
sealed_token = record opened_token { signature = some envelope }

abbrev opened_session : StartSessionResponse
opened_session = record {
  ref = some session;
  nonce = tabulate 32 (λ i. 7);
  policy = v1_policy;
  open_tier_token = sealed_token;
  verified_available = true;
  expires_at = some (new_timestamp (opening + session_lifetime));
}

opens :
    start_session toy_crypto token_codec
      (some (server_of host))
      (some asking)
      opening
      (some (λ i. 7))
    ≡ ok opened_session
unfolding start_session new_nonce32 sign pad flatten tabulate tier_eq
opens = refl

-- One second before the end.
abbrev in_time : ℕ
in_time = opening + 599 * second

introspects :
    introspect_tier_token toy_crypto token_codec host (some sealed_token) in_time
    ≡ ok (granted sealed_token)
introspects =
    (start_session-accepted toy_crypto token_codec host toy_crypto-IsLawful token_codec-RoundTrips
      (λ i. i) host-IsKeyPair asking opening in_time 0 (some (λ i. 7)) opened_session asking-Encodes
      (omega arith) (omega arith) opens).0

abbrev host_keys : PublicKeySet
host_keys = published (get_public_keys (server_of host) 0)

host-size : length host.pub_key ≡ 32
unfolding pad tabulate
host-size = refl

passes :
    verify_tier_token_offline toy_crypto token_codec (some sealed_token) host_keys in_time ≡ ok tt
passes =
    (offline_iff_online toy_crypto token_codec host token_codec-RoundTrips host-size sealed_token 0
        in_time).1
      introspects

genuine : IsGenuine toy_crypto token_codec host.pub_key envelope sealed_token in_time
unfolding pad flatten tabulate as_time new_timestamp
genuine = record {
  payload-eq = refl;
  has_payload = refl;
  has_signature = refl;
  live = omega arith;
  signed = toy_crypto-IsLawful.verify-sign (λ i. i) payload;
}

published-key : key_of (codes "k1") host_keys ≡ host.pub_key
unfolding key_of get_public_keys text_eq
published-key = refl

start_session-accepted_example :
    (introspect_tier_token toy_crypto token_codec host (some sealed_token) in_time
      ≡ ok (granted sealed_token))
    × (verify_tier_token_offline toy_crypto token_codec (some sealed_token) host_keys in_time
        ≡ ok tt)
start_session-accepted_example =
    start_session-accepted toy_crypto token_codec host toy_crypto-IsLawful token_codec-RoundTrips
      (λ i. i) host-IsKeyPair asking opening in_time 0 (some (λ i. 7)) opened_session asking-Encodes
      (omega arith) (omega arith) opens

offline_iff_online_example :
    (verify_tier_token_offline toy_crypto token_codec (some sealed_token) host_keys in_time ≡ ok tt)
    ↔ (introspect_tier_token toy_crypto token_codec host (some sealed_token) in_time
        ≡ ok (granted sealed_token))
offline_iff_online_example =
    offline_iff_online toy_crypto token_codec host token_codec-RoundTrips host-size sealed_token 0
      in_time

introspect_tier_token_sound_example :
    (granted sealed_token ≡ granted sealed_token)
    × ((env : SignedEnvelope) × (sealed_token.signature ≡ some env)
        × (env.key_id ≡ host.key_id)
        × IsGenuine toy_crypto token_codec host.pub_key env sealed_token in_time)
introspect_tier_token_sound_example =
    introspect_tier_token_sound toy_crypto token_codec host sealed_token in_time
      (granted sealed_token) introspects refl

verify_tier_token_offline_sound_example :
    (env : SignedEnvelope) × (sealed_token.signature ≡ some env)
    × (is_nil (key_of env.key_id host_keys) ≡ false)
    × IsGenuine toy_crypto token_codec (key_of env.key_id host_keys) env sealed_token in_time
verify_tier_token_offline_sound_example =
    verify_tier_token_offline_sound toy_crypto token_codec sealed_token host_keys in_time passes

verify_tier_token_offline_complete_example :
    verify_tier_token_offline toy_crypto token_codec (some sealed_token) host_keys in_time ≡ ok tt
verify_tier_token_offline_complete_example =
    verify_tier_token_offline_complete toy_crypto token_codec sealed_token host_keys in_time
      token_codec-RoundTrips envelope refl (rw (published-key) host-size)
      (rw (published-key) genuine)

start_session-total_example :
    (r : StartSessionResponse) × (start_session toy_crypto token_codec
        (some (server_of host))
        (some asking)
        opening
        (some (λ i. 7))
      ≡ ok r)
unfolding tier_eq
start_session-total_example =
    start_session-total toy_crypto token_codec host toy_crypto-IsLawful (λ i. i) host-IsKeyPair
      asking opening (λ i. 7) asking-Encodes refl refl refl

start_session_sound_example :
    (s : Signer) × (some (server_of host) ≡ some (record { signer = some s }))
    × (q : StartSessionRequest) × (some asking ≡ some q)
    × (is_nil (session_id_of q.ref) ≡ false)
    × (is_nil (match_id_of q.ref) ≡ false)
    × IsOpenSession toy_crypto token_codec s q opening opened_session
start_session_sound_example =
    start_session_sound toy_crypto token_codec (some (server_of host)) (some asking) opening
      (some (λ i. 7)) opened_session opens
