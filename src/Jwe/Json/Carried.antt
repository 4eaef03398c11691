-- ===== src/Jwe/Json/Carried.antt =====
-- What the loop of `EncryptJSONMulti` over several recipients makes for each of them.
use jose.Common.{
  ℕ, ◌+◌, ◌≡◌, refl, sym, ap, ◌∙◌, true, false, not, ◌&&◌, some, List, [], ◌∷◌, ◌++◌, ◌==◌, Bytes,
  codes, ltb, eqb, eqb_iff, Bool-cases, Option-cases, ◌⊎◌, inl, inr, append-nil, append_assoc,
  arith,
}
use mathlib.Core.Path.{subst}
use jose.Common.Outcome.{ok, ok-inj, guard, guard-ok, >>=-eq-ok}
use jose.Errors.{unsupported_algorithm}
use jose.Header.{Header}
use jose.Jwk.{resolve_key, check_jwk_usage}
use jose.ContentEnc.{ContentEnc}
use jose.Keys.{Key}
use jose.KeyMgmt.{KeyMgmt, Draws, lookup_key_mgmt, derives_cek}
use jose.KeyMgmt.Dispatch.{encrypt_kind, encrypt_key, transported_cek}
use jose.KeyMgmt.Transport.{encrypt_key-delivers, transported-given}
use jose.Jwe.{JweLibrary, def, deflate, content_of, choose_key_mgmt_alg, encrypt_ops}
use jose.Jwe.Json.{
  Recipient, JweRecipient, Sealing, recipient_header, folded, add_recipient, seal_for, seal_all,
}
use jose.Jwe.Json.Recipients.{entry_of}

module _ (lib : JweLibrary) (enc_name : Bytes) (enc : ContentEnc) (draws : ℕ → Draws)
    (protected : Header) (cek : Bytes) where
  -- The entry of a recipient: the recipient's own key is resolved and permits encryption, the algorithm is the one
  -- chosen for it and transports a key, and the encrypted key seals this content encryption key under that algorithm
  -- and key, with the recipient's own header.
  pub record IsFor (i : ℕ) (r : Recipient) (entry : JweRecipient) : Type 0 where
    pub resolved : Key
    pub resolves : resolve_key lib.mgmt.keys r.key r.key_id ≡ ok resolved
    pub alg : Bytes
    pub chosen : choose_key_mgmt_alg r.algorithm r.key resolved ≡ ok alg
    pub permitted :
        check_jwk_usage r.key r.key_id (codes "enc") (alg ∷ enc_name ∷ []) encrypt_ops ≡ ok tt
    pub km : KeyMgmt
    pub km_found : lookup_key_mgmt alg ≡ ok km
    pub transports : derives_cek km ≡ false
    pub written : Header
    pub encrypted : Bytes
    pub sealed :
        encrypt_kind lib.mgmt km enc km.kind
          (draws i)
          resolved
          (recipient_header protected r alg)
          cek
        ≡ ok (written, cek, encrypted)
    pub made : entry ≡ entry_of written encrypted

  -- One entry for each recipient, in their order; `i` counts them.
  abbrev pub AreFor : ℕ → List Recipient → List JweRecipient → Type 0
  AreFor i [] [] = Unit {0}
  AreFor i (r ∷ rs) (e ∷ es) = IsFor i r e × AreFor (i + 1) rs es
  AreFor i _ _ = ⊥

some-inj {ℓ} : {A : Type ℓ} (a b : A) → some a ≡ some b → a ≡ b
some-inj a b e = cc

module _ (lib : JweLibrary) (enc_name : Bytes) (enc : ContentEnc) (draws : ℕ → Draws) (total : ℕ)
    (several : ltb 1 total ≡ true) where
  not_single : (total == 1) ≡ false
  not_single = ground arith

  -- One step: an entry for the recipient, under the key that the state has if it has one.
  record IsAdded (i : ℕ) (s t : Sealing) (r : Recipient) : Type 0 where
    cek : Bytes
    entry : JweRecipient
    holds : t.cek ≡ some cek
    keeps : (c : Bytes) → s.cek ≡ some c → c ≡ cek
    same_header : t.protected ≡ s.protected
    appended : t.recipients ≡ s.recipients ++ (entry ∷ [])
    is_for : IsFor lib enc_name enc draws s.protected cek i r entry

  seal_for-IsAdded :
      (i : ℕ) (s t : Sealing) (r : Recipient)
      → seal_for lib enc_name enc total (draws i) s r ≡ ok t
      → IsAdded i s t r
  unfolding seal_for folded add_recipient
  seal_for-IsAdded i s t r run =
      let (resolved, resolves, h₁) = >>=-eq-ok (resolve_key lib.mgmt.keys r.key r.key_id) _ run in
      let (alg, chosen, h₂) = >>=-eq-ok (choose_key_mgmt_alg r.algorithm r.key resolved) _ h₁ in
      let (km, found, h₃) = >>=-eq-ok (lookup_key_mgmt alg) _ h₂ in
      let (_, usage, h₄) =
        >>=-eq-ok (check_jwk_usage r.key r.key_id (codes "enc") (alg ∷ enc_name ∷ []) encrypt_ops) _
          h₃ in
      let (_, allowed, h₅) =
        >>=-eq-ok (guard (not (derives_cek km && ltb 1 total)) unsupported_algorithm) _ h₄ in
      let (header, joined, h₆) =
        >>=-eq-ok (folded (total == 1) (recipient_header s.protected r alg) s.protected) _ h₅ in
      let ((written, cek, encrypted), made, last) =
        >>=-eq-ok (encrypt_key lib.mgmt km enc (draws i) resolved header s.cek) _ h₆ in
      let own : derives_cek km ≡ false = ground (arith, guard-ok _ unsupported_algorithm allowed) in
      let (sealed, from) =
        encrypt_key-delivers lib.mgmt km enc (draws i) resolved header s.cek written cek encrypted
          own made in
      let alone : recipient_header s.protected r alg ≡ header = ok-inj _ header (
        ap (λ b. folded b (recipient_header s.protected r alg) s.protected) (sym not_single)
        ∙ joined) in
      let same : add_recipient false s written cek encrypted ≡ t =
        ap (λ b. add_recipient b s written cek encrypted) (sym not_single) ∙ ok-inj _ t last in
      record {
        cek = cek;
        entry = entry_of written encrypted;
        holds = sym (ap (λ (u : Sealing). u.cek) same);
        keeps = λ c e.
            transported-given km enc (draws i) c cek
              (ap (transported_cek km enc (draws i)) (sym e) ∙ from);
        same_header = sym (ap (λ (u : Sealing). u.protected) same);
        appended = sym (ap (λ (u : Sealing). u.recipients) same);
        is_for = record {
          resolved = resolved;
          resolves = resolves;
          alg = alg;
          chosen = chosen;
          permitted = usage;
          km = km;
          km_found = found;
          transports = own;
          written = written;
          encrypted = encrypted;
          sealed =
              ap (λ h. encrypt_kind lib.mgmt km enc km.kind (draws i) resolved h cek) alone
              ∙ sealed;
          made = refl;
        };
      }

  -- What the rest of the loop adds, and the key that it keeps.
  pub record AreAdded (i : ℕ) (s t : Sealing) (rs : List Recipient) : Type 0 where
    pub entries : List JweRecipient
    pub appended : t.recipients ≡ s.recipients ++ entries
    pub keeps : (c : Bytes) → s.cek ≡ some c → t.cek ≡ some c
    pub are_for :
        (cek : Bytes)
        → t.cek ≡ some cek
        → AreFor lib enc_name enc draws s.protected cek i rs entries

  pub seal_all-AreAdded :
      (i : ℕ) (s t : Sealing) (rs : List Recipient)
      → seal_all lib enc_name enc total draws i s rs ≡ ok t
      → AreAdded i s t rs
  unfolding seal_all
  seal_all-AreAdded i s t [] run =
      let same : s ≡ t = ok-inj s t run in
      record {
        entries = [];
        appended = sym (ap (λ (u : Sealing). u.recipients) same) ∙ sym (append-nil s.recipients);
        keeps = λ c e. sym (ap (λ (u : Sealing). u.cek) same) ∙ e;
        are_for = λ cek e. tt;
      }
  seal_all-AreAdded i s t (r ∷ rs) run =
      let (next, made, rest) = >>=-eq-ok (seal_for lib enc_name enc total (draws i) s r) _ run in
      let one = seal_for-IsAdded i s next r made in
      let more = seal_all-AreAdded (i + 1) next t rs rest in
      let held = more.keeps one.cek one.holds in
      record {
        entries = one.entry ∷ more.entries;
        appended =
            more.appended
            ∙ (ap (λ l. l ++ more.entries) one.appended
                ∙ append_assoc s.recipients (one.entry ∷ []) more.entries);
        keeps = λ c e. held ∙ ap some (sym (one.keeps c e));
        are_for = λ cek e.
            let same : one.cek ≡ cek = some-inj one.cek cek (sym held ∙ e) in
            (
              subst (λ c. IsFor lib enc_name enc draws s.protected c i r one.entry) same one.is_for,
              subst (λ h. AreFor lib enc_name enc draws h cek (i + 1) rs more.entries)
                  one.same_header (more.are_for cek e),
            );
      }

-- The content that is encrypted: the plaintext, or what DEFLATE makes of it if the header says so.
abbrev pub IsBody : JweLibrary → Bytes → Bytes → Bytes → Type 0
IsBody lib zip plaintext body =
    ((zip ≡ []) × (body ≡ plaintext)) ⊎ ((zip ≡ codes "DEF") × (lib.deflated plaintext ≡ some body))

pub content_of-IsBody :
    (lib : JweLibrary) (zip plaintext body : Bytes)
    → content_of lib zip plaintext ≡ ok body
    → IsBody lib zip plaintext body
unfolding content_of deflate
content_of-IsBody lib [] plaintext body h = inl (refl, sym (ok-inj plaintext body h))
content_of-IsBody lib (x ∷ zip) plaintext body h = elim (Bool-cases (eqb (x ∷ zip) def)) [
  | inr other ↦ absurd (ground (arith, other, h))
  | inl same ↦ elim (Option-cases (lib.deflated plaintext)) [
    | inl failed ↦ absurd (ground (arith, same, failed, h))
    | inr (out, done) ↦
        let is : out ≡ body = ground (arith, same, done, h) in
        inr ((eqb_iff (x ∷ zip) def).0 same, done ∙ ap some is)
  ]
]
