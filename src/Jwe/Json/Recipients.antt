-- ===== src/Jwe/Json/Recipients.antt =====
-- Encryption for several recipients: the key that they share.
use jose.Common.{
  ℕ, ◌+◌, ◌≡◌, refl, sym, ap, ◌∙◌, ◌⊎◌, inl, inr, true, false, not, ◌&&◌, none, some, List, [], ◌∷◌,
  ◌==◌, Bytes, codes, ltb, length, length-append, All, All-append, arith,
}
use mathlib.Core.Path.{subst}
use jose.Common.Outcome.{ok, guard, guard-ok, >>=-eq-ok}
use jose.Errors.{unsupported_algorithm}
use jose.Base64.{encode_segment}
use jose.Header.{Header}
use jose.Jwk.{resolve_key, check_jwk_usage}
use jose.ContentEnc.{ContentEnc}
use jose.Keys.{Key}
use jose.KeyMgmt.{KeyMgmt, Draws, lookup_key_mgmt, derives_cek}
use jose.KeyMgmt.Dispatch.{encrypt_kind, encrypt_key, transported_cek}
use jose.KeyMgmt.Transport.{encrypt_key-delivers, transported-given}
use jose.Jwe.{JweLibrary, choose_key_mgmt_alg, encrypt_ops}
use jose.Jwe.Json.{
  Recipient, JweRecipient, Sealing, recipient_header, folded, add_recipient, seal_for, seal_all,
}

abbrev pub entry_of : Header → Bytes → JweRecipient
entry_of written encrypted = record {
  header = some written;
  encrypted_key = encode_segment encrypted;
}

module _ (lib : JweLibrary) (enc : ContentEnc) where
  -- An entry of "recipients": its encrypted key carries this content encryption key, under an algorithm
  -- that transports it, and its header is the one the algorithm wrote.
  pub record Carries (cek : Bytes) (entry : JweRecipient) : Type 0 where
    pub km : KeyMgmt
    pub alg : Bytes
    pub km_found : lookup_key_mgmt alg ≡ ok km
    pub transports : derives_cek km ≡ false
    pub draws : Draws
    pub resolved : Key
    pub header : Header
    pub written : Header
    pub encrypted : Bytes
    pub sealed :
        encrypt_kind lib.mgmt km enc km.kind draws resolved header cek
        ≡ ok (written, cek, encrypted)
    pub made : entry ≡ entry_of written encrypted

module _ (lib : JweLibrary) (enc_name : Bytes) (enc : ContentEnc) (total : ℕ)
    (several : ltb 1 total ≡ true) where
  -- The state of the loop: before the first recipient there is no key and no entry; from then on there is one
  -- key, which every entry carries.
  abbrev pub IsShared : Sealing → Type 0
  IsShared s =
      ((s.cek ≡ none) × (s.recipients ≡ []))
      ⊎ ((cek : Bytes) × (s.cek ≡ some cek) × All (Carries lib enc cek) s.recipients)

  single_not : (total == 1) ≡ false
  single_not = ground arith

  -- One recipient further: the protected header is as it was, and the state holds a key that all carry.
  abbrev Follows : Sealing → Sealing → Type 0
  Follows s t =
      (t.protected ≡ s.protected)
      × (length t.recipients ≡ length s.recipients + 1)
      × ((cek : Bytes) × (t.cek ≡ some cek) × All (Carries lib enc cek) t.recipients)

  add-Follows :
      (s : Sealing) (written : Header) (cek encrypted : Bytes)
      → IsShared s
      → Carries lib enc cek (entry_of written encrypted)
      → ((c : Bytes) → s.cek ≡ some c → c ≡ cek)
      → Follows s (add_recipient false s written cek encrypted)
  unfolding add_recipient
  add-Follows s written cek encrypted shared carries keeps =
      let entry = entry_of written encrypted in
      let before : All (Carries lib enc cek) s.recipients = elim shared [
        | inl (fresh, nobody) ↦ subst (All (Carries lib enc cek)) (sym nobody) tt
        | inr (c, e, all) ↦ subst (λ k. All (Carries lib enc k) s.recipients) (keeps c e) all
      ] in
      (
        refl,
        length-append s.recipients (entry ∷ []),
        (
          cek,
          refl,
          All-append (Carries lib enc cek) s.recipients (entry ∷ []) before (carries, tt),
        ),
      )

  seal_for-IsShared :
      (draws : Draws) (s t : Sealing) (r : Recipient)
      → IsShared s
      → seal_for lib enc_name enc total draws s r ≡ ok t
      → Follows s t
  unfolding seal_for
  seal_for-IsShared draws s t r shared run =
      let (resolved, _, h₁) = >>=-eq-ok (resolve_key lib.mgmt.keys r.key r.key_id) _ run in
      let (alg, _, h₂) = >>=-eq-ok (choose_key_mgmt_alg r.algorithm r.key resolved) _ h₁ in
      let (km, found, h₃) = >>=-eq-ok (lookup_key_mgmt alg) _ h₂ in
      let (_, _, h₄) =
        >>=-eq-ok (check_jwk_usage r.key r.key_id (codes "enc") (alg ∷ enc_name ∷ []) encrypt_ops) _
          h₃ in
      let (_, allowed, h₅) =
        >>=-eq-ok (guard (not (derives_cek km && ltb 1 total)) unsupported_algorithm) _ h₄ in
      let (header, _, h₆) =
        >>=-eq-ok (folded (total == 1) (recipient_header s.protected r alg) s.protected) _ h₅ in
      let ((written, cek, encrypted), made, last) =
        >>=-eq-ok (encrypt_key lib.mgmt km enc draws resolved header s.cek) _ h₆ in
      let own : derives_cek km ≡ false = ground (arith, guard-ok _ unsupported_algorithm allowed) in
      let (sealed, from) =
        encrypt_key-delivers lib.mgmt km enc draws resolved header s.cek written cek encrypted own
          made in
      let carries : Carries lib enc cek (entry_of written encrypted) = record {
        km = km;
        alg = alg;
        km_found = found;
        transports = own;
        draws = draws;
        resolved = resolved;
        header = header;
        written = written;
        encrypted = encrypted;
        sealed = sealed;
        made = refl;
      } in
      let same : add_recipient false s written cek encrypted ≡ t =
        ap (λ b. add_recipient b s written cek encrypted) (sym single_not) ∙ ground (arith, last) in
      subst (Follows s) same (
        add-Follows s written cek encrypted shared carries λ c e.
          transported-given km enc draws c cek (ap (transported_cek km enc draws) (sym e) ∙ from))

  -- The loop of `EncryptJSONMulti` over several recipients keeps its invariant: there is no key and no entry, or
  -- there is one key, which every entry carries. It leaves the protected header as it was and adds an entry for
  -- each recipient.
  pub seal_all-IsShared :
      (draws : ℕ → Draws) (i : ℕ) (s t : Sealing) (rs : List Recipient)
      → IsShared s
      → seal_all lib enc_name enc total draws i s rs ≡ ok t
      → IsShared t
        × (t.protected ≡ s.protected)
        × (length t.recipients ≡ length s.recipients + length rs)
  unfolding seal_all
  seal_all-IsShared draws i s t [] shared run =
      let same : s ≡ t = ground (arith, run) in rw (← same) (shared, refl, omega arith)
  seal_all-IsShared draws i s t (r ∷ rs) shared run =
      let (next, made, rest) = >>=-eq-ok (seal_for lib enc_name enc total (draws i) s r) _ run in
      let (header, more, held) = seal_for-IsShared (draws i) s next r shared made in
      let (last, kept, count) = seal_all-IsShared draws (i + 1) next t rs (inr held) rest in
      (last, kept ∙ header, omega (arith, more, count))
