-- ===== src/Jwe/Inflate.antt =====
-- The bound on what a compressed payload may expand to.
use jose.Common.{
  ◌-◌, ℕ, ◌+◌, ◌^◌, ◌≤◌, ◌<◌, ◌≡◌, ◌↔◌, inl, inr, refl, sym, ap, ◌∙◌, Option, none, some, [], ltb,
  Bytes, length, take, take-length_le, Option-cases, Bool-cases, if◌then◌else◌, arith,
}
use jose.Common.Outcome.{ok, err}
use jose.Errors.{malformed, compression_limit}
use jose.Jwe.{JweLibrary}
use jose.Jwe.Decrypt.{reader_count, inflate}

-- What is documented of reading an inflated stream through a limit, `whole` being the stream if it
-- is one: at most that many octets come, a stream without a fault gives its first ones, and a read that
-- stays below the limit has seen the whole stream.
pub record IsInflater (lib : JweLibrary) (whole : Bytes → Option Bytes) : Type 0 where
  pub length-read :
      (b : Bytes) (n : ℕ) (out : Bytes) → lib.read_inflated b n ≡ some out → length out ≤ n
  pub read-whole :
      (b : Bytes) (n : ℕ) (all : Bytes)
      → whole b ≡ some all
      → lib.read_inflated b n ≡ some (take n all)
  pub read-end :
      (b : Bytes) (n : ℕ) (out : Bytes)
      → lib.read_inflated b n ≡ some out
      → length out < n
      → whole b ≡ some out

reader_count-eq : (limit : ℕ) → limit < 2 ^ 63 - 1 → reader_count limit ≡ limit + 1
unfolding reader_count
reader_count-eq limit h = ground arith

inflate-by :
    (lib : JweLibrary) (b : Bytes) (limit n : ℕ) (o : Option Bytes)
    → reader_count limit ≡ n
    → lib.read_inflated b n ≡ o
    → inflate lib b limit ≡ elim o [
      | none ↦ err malformed
      | some out ↦ if ltb limit (length out) then err compression_limit else ok out
    ]
unfolding inflate
inflate-by lib b limit n o count e = rw (inflate, count, e) refl

module _ (lib : JweLibrary) (whole : Bytes → Option Bytes) (laws : IsInflater lib whole)
    (b : Bytes) where
  -- A run that gives octets has read them, and they fit.
  read_of :
      (limit n : ℕ) (out : Bytes)
      → reader_count limit ≡ n
      → inflate lib b limit ≡ ok out
      → (lib.read_inflated b n ≡ some out) × (length out ≤ limit)
  read_of limit n out count h = elim (Option-cases (lib.read_inflated b n)) [
    | inl bad ↦ absurd (let e = inflate-by lib b limit n none count bad in ground (arith, e))
    | inr (got, e) ↦
        let run = sym (inflate-by lib b limit n (some got) count e) ∙ h in
        elim (Bool-cases (ltb limit (length got))) [
          | inl over ↦ absurd (ground (arith, over))
          | inr fits ↦
              let same : got ≡ out = ground (arith, fits) in rw (← same) (e, ground (arith, fits))
        ]
  ]

  inflate-fits :
      (limit : ℕ) (all : Bytes)
      → limit < 2 ^ 63 - 1
      → whole b ≡ some all
      → length all ≤ limit
      → inflate lib b limit ≡ ok all
  inflate-fits limit all small e fits =
      let read =
        laws.read-whole b (limit + 1) all e
        ∙ ap some (take-length_le (limit + 1) all (omega arith)) in
      inflate-by lib b limit (limit + 1) (some all) (reader_count-eq limit small) read
      ∙ ground arith

  -- Below the largest limit, `inflate` gives octets exactly if they are the whole inflated stream and they fit
  -- the limit.
  pub inflate_iff :
      (limit : ℕ) (out : Bytes)
      → limit < 2 ^ 63 - 1
      → (inflate lib b limit ≡ ok out) ↔ ((whole b ≡ some out) × (length out ≤ limit))
  inflate_iff limit out small = (
    (λ h.
        let (read, fits) = read_of limit (limit + 1) out (reader_count-eq limit small) h in
        (laws.read-end b (limit + 1) out read (omega arith), fits)),
    λ (e, fits). inflate-fits limit out small e fits,
  )

  reader_count-max : reader_count (2 ^ 63 - 1) ≡ 0
  unfolding reader_count
  reader_count-max = refl

  -- With the largest limit that an int holds, the count of the reader overflows: every payload that
  -- inflates at all inflates to no octets, whatever it holds.
  pub inflate-overflow : (all : Bytes) → whole b ≡ some all → inflate lib b (2 ^ 63 - 1) ≡ ok []
  inflate-overflow all e =
      inflate-by lib b (2 ^ 63 - 1) 0 (some []) reader_count-max (laws.read-whole b 0 all e) ∙ refl
