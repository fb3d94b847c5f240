-- ===== src/Transport/Srtp.antt =====
-- src/transport/srtp.rs: SRTP contexts. Encryption itself is the package webrtc-srtp: `accepts` is whether
-- its `Context::new` takes a key and a salt, and `Crypto` is what its four calls give for a key, a salt
-- and a packet, an error text or the result. A context of the package is mutable: it remembers a rollover
-- counter and a replay window between calls. These are not modelled, so that a call here depends on its own
-- arguments only; a packet that the package refuses as a replay is one that `Crypto` may refuse or not.
use light_livechat.Base.{
  ℕ, String, Bool, true, false, Option, none, some, List, if◌then◌else◌, ◌⊎◌, inl, inr,
}

pub record SrtpContext : Type 0 where
  pub inner : Option (List ℕ × List ℕ)

unfoldable pub new_srtp : SrtpContext
new_srtp = record { inner = none }

-- A refused key leaves the context as it was.
unfoldable pub install_key :
    (accepts : List ℕ → List ℕ → Bool) → (key salt : List ℕ) → SrtpContext → SrtpContext
install_key accepts key salt ctx =
    if accepts key salt then record { inner = some (key, salt) } else ctx

unfoldable pub is_ready : SrtpContext → Bool
is_ready ctx = elim ctx.inner [ none ↦ false | some _ ↦ true ]

pub data SrtpError : Type 0 where
  decrypt_failed : (message : String) → SrtpError
  encrypt_failed : (message : String) → SrtpError
  key_not_installed : SrtpError

abbrev pub Cipher : Type 0
Cipher = (key salt packet : List ℕ) → String ⊎ List ℕ

pub record Crypto : Type 0 where
  pub rtp_decrypt : Cipher
  pub rtcp_decrypt : Cipher
  pub rtp_encrypt : Cipher
  pub rtcp_encrypt : Cipher

-- `map_err`.
result_of : (String → SrtpError) → String ⊎ List ℕ → SrtpError ⊎ List ℕ
result_of wrap (inl message) = inl (wrap message)
result_of wrap (inr plain) = inr plain

with_key :
    (String → SrtpError)
    → Cipher
    → (packet : List ℕ) → Option (List ℕ × List ℕ)
    → SrtpError ⊎ List ℕ
unfolding result_of
with_key wrap cipher packet none = inl key_not_installed
with_key wrap cipher packet (some (key, salt)) = result_of wrap (cipher key salt packet)

unfoldable pub decrypt_rtp : Crypto → (packet : List ℕ) → SrtpContext → SrtpError ⊎ List ℕ
unfolding with_key
decrypt_rtp crypto packet ctx = with_key decrypt_failed crypto.rtp_decrypt packet ctx.inner

unfoldable pub decrypt_rtcp : Crypto → (packet : List ℕ) → SrtpContext → SrtpError ⊎ List ℕ
unfolding with_key
decrypt_rtcp crypto packet ctx = with_key decrypt_failed crypto.rtcp_decrypt packet ctx.inner

unfoldable pub encrypt_rtp : Crypto → (packet : List ℕ) → SrtpContext → SrtpError ⊎ List ℕ
unfolding with_key
encrypt_rtp crypto packet ctx = with_key encrypt_failed crypto.rtp_encrypt packet ctx.inner

unfoldable pub encrypt_rtcp : Crypto → (packet : List ℕ) → SrtpContext → SrtpError ⊎ List ℕ
unfolding with_key
encrypt_rtcp crypto packet ctx = with_key encrypt_failed crypto.rtcp_encrypt packet ctx.inner
