-- ===== src/Waiver/Valid.antt =====
-- What `Parse` of internal/waiver/waiver.go accepts.
use kubeguard.Prelude.{
  ℕ, suc, String, List, [], ◌∷◌, map, Option, some, eq_iff, ◌≡◌, refl, ◌≢◌, arith, All,
}
use kubeguard.Waiver.{Entry}
use kubeguard.Waiver.Load.{RawEntry, ok, bind_inversion, validate, validate_all, parse, to_raw}

module _ (parse_time : String → Option ℕ) where
  -- A waiver with an id, a justification and an expiry that parses.
  pub record IsAcceptable (r : RawEntry) : Type 0 where
    pub identified : r.id ≢ ""
    pub justified : r.justification ≢ ""
    pub dated : r.expires ≢ ""
    pub instant : ℕ
    pub parsed : parse_time r.expires ≡ some instant

  pub record IsValid (e : Entry) : Type 0 where
    pub identified : e.id ≢ ""
    pub justified : e.justification ≢ ""
    pub parsed : parse_time e.expires ≡ some e.expires_at

  validate-ok :
      (i : ℕ) (r : RawEntry) (e : Entry)
      → validate parse_time i r ≡ ok e
      → IsValid e × (to_raw e ≡ r)
  unfolding validate
  validate-ok i r e h =
      ground (arith, eq_iff r.id "", eq_iff r.justification "", eq_iff r.expires "")

  validate_all-ok :
      (i : ℕ) (raw : List RawEntry) (es : List Entry)
      → validate_all parse_time i raw ≡ ok es
      → All IsValid es × (map to_raw es ≡ raw)
  unfolding validate_all
  validate_all-ok i [] [] h = (tt, refl)
  validate_all-ok i [] (e ∷ es) h = cc
  validate_all-ok i (r ∷ rs) es h =
      let (x, h', first) = bind_inversion es _ (validate parse_time i r) h in
      let (xs, h'', later) = bind_inversion es _ (validate_all parse_time (suc i) rs) h' in
      let (v, e) = validate-ok i r x first in
      let (vs, es') = validate_all-ok (suc i) rs xs later in
      let whole : x ∷ xs ≡ es = cc in rw (← whole) ((v, vs), cc (e, es'))

  validate_total :
      (i : ℕ) (r : RawEntry) → IsAcceptable r → (e : Entry) × (validate parse_time i r ≡ ok e)
  unfolding validate
  validate_total i r a = (
    record {
      id = r.id;
      resource = r.resource;
      justification = r.justification;
      expires = r.expires;
      expires_at = a.instant;
    },
    ground (arith, eq_iff r.id "", eq_iff r.justification "", eq_iff r.expires ""),
  )

  validate_all_total :
      (i : ℕ) (raw : List RawEntry)
      → All IsAcceptable raw
      → (es : List Entry) × (validate_all parse_time i raw ≡ ok es)
  unfolding validate_all
  validate_all_total i [] a = ([], refl)
  validate_all_total i (r ∷ rs) a =
      let (x, e) = validate_total i r a.0 in
      let (xs, es) = validate_all_total (suc i) rs a.1 in (x ∷ xs, rw (e, es))

  -- A set that `Parse` returns holds the waivers of the decoded file, all and in order, each with an
  -- id, a justification and the instant that its expiry parses to.
  pub parse-IsValid :
      (raw : List RawEntry) (es : List Entry)
      → parse parse_time (some raw) ≡ ok es
      → All IsValid es × (map to_raw es ≡ raw)
  unfolding parse
  parse-IsValid raw es h = validate_all-ok 0 raw es h

  -- `Parse` returns a set for every decoded file whose waivers all have an id, a justification and an
  -- expiry that parses.
  pub parse_total :
      (raw : List RawEntry)
      → All IsAcceptable raw
      → (es : List Entry) × (parse parse_time (some raw) ≡ ok es)
  unfolding parse
  parse_total raw a = validate_all_total 0 raw a
