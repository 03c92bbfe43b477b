-- ===== src/Capture/Total.antt =====
-- That the decoder of typed netstrings ends.
use go_ring.Common.{
  ℕ, zero, suc, ◌+◌, ◌*◌, ◌≤◌, ◌<◌, ◌≡◌, ◌≢◌, refl, ap, subst, Bool, true, false, Option, none,
  some, [], ◌∷◌, Bytes, length, leb, ◌==◌, if◌then◌else◌, arith, is_empty, codes,
}
use go_ring.Common.Fallible.{
  Result, ok, err, ◌>>=◌, ◌>>◌, guard, or_fail, bind-ok_cases, guard-ok_cases, ok-injective,
}
use go_ring.Capture.{
  decode_flows, decode_flow_stream, version_of, as_object, not_an_object, unsupported_version,
  bad_flow, Value, Fields, no_fields, Parsers, CaptureError, out_of_fuel, too_deep, frame,
  parse_scalar, decode_tnetstring, parse_value, parse_list, parse_map, key_string, set_field,
  unexpected_end, missing_separator, bad_length, bad_text, bad_integer, bad_float, bad_null,
  bad_boolean, unknown_tag, split_colon, max_tnetstring_depth, bad_key, boolean, null,
}
use go_ring.Common.Int.{pos, int_eq}
use go_ring.Common.Decimal.{bytes_eq}
use go_ring.Common.ParseInt.{parse_digits, parse_int64}
use go_ring.Capture.Frame.{length-frame}

-- A result that is no lack of fuel.
IsDone {ℓ} : {A : Type ℓ} → Result CaptureError A → Type 0
IsDone (ok a) = Unit
IsDone (err e) = e ≢ out_of_fuel

IsDone-ok {ℓ} : {A : Type ℓ} (a : A) → IsDone (ok a)
unfolding IsDone
IsDone-ok a = tt

IsDone-err {ℓ} : (A : Type ℓ) (e : CaptureError) → e ≢ out_of_fuel → IsDone {A = A} (err e)
unfolding IsDone
IsDone-err A e other = other

IsDone-enough {ℓ} : {A : Type ℓ} (r : Result CaptureError A) → IsDone r → r ≢ err out_of_fuel
unfolding IsDone
IsDone-enough (ok a) done h = cc
IsDone-enough (err e) done h = done (cc)

bind-IsDone {ℓ κ} :
    {A : Type ℓ} {B : Type κ} (m : Result CaptureError A) (f : A → Result CaptureError B)
    → IsDone m
    → ((a : A) → m ≡ ok a → IsDone (f a))
    → IsDone (m >>= f)
unfolding IsDone
bind-IsDone (ok a) f done next = next a refl
bind-IsDone (err e) f done next = done

if-IsDone {ℓ} :
    {A : Type ℓ} (b : Bool) (m n : Result CaptureError A)
    → IsDone m
    → IsDone n
    → IsDone (if b then m else n)
unfolding IsDone
if-IsDone true m n x y = x
if-IsDone false m n x y = y

guard-IsDone {ℓ} :
    {A : Type ℓ} (b : Bool) (e : CaptureError) (m : Result CaptureError A)
    → e ≢ out_of_fuel
    → IsDone m
    → IsDone (guard b e >> m)
unfolding IsDone
guard-IsDone true e m other done = done
guard-IsDone false e m other done = other

or_fail-IsDone {ℓ} :
    {A : Type ℓ} (o : Option A) (e : CaptureError) → e ≢ out_of_fuel → IsDone (or_fail o e)
unfolding IsDone
or_fail-IsDone (some a) e other = tt
or_fail-IsDone none e other = other

frame-IsDone : (d : Bytes) → IsDone (frame d)
unfolding frame
frame-IsDone d =
    guard-IsDone _ unexpected_end _ (λ e. cc)
      (bind-IsDone _ _ (or_fail-IsDone (split_colon d) missing_separator (λ e. cc)) λ parts _.
        guard-IsDone _ bad_length _ (λ e. cc)
          (bind-IsDone _ _ (or_fail-IsDone (parse_digits parts.0) bad_length (λ e. cc))
            λ n _. guard-IsDone _ bad_length _ (λ e. cc) (IsDone-ok _)))

module _ {F : Type 0} (parsers : Parsers F) where
  length-decode :
      (f depth : ℕ) (d : Bytes) (v : Value F) (rest : Bytes)
      → decode_tnetstring parsers f depth d ≡ ok (v, rest)
      → length rest < length d
  unfolding decode_tnetstring
  length-decode zero depth d v rest h = cc
  length-decode (suc f) depth d v rest h =
      guard-ok_cases (leb depth max_tnetstring_depth) _ _ h λ _ h.
        bind-ok_cases (frame d) _ h λ parts framed h.
          bind-ok_cases (parse_value parsers f depth parts.1 parts.0) _ h λ w _ h.
            let shorter : length parts.2 < length d = omega (arith, length-frame d parts framed) in
            subst (λ r. length r < length d) (ap (λ q. q.1) (ok-injective h)) shorter

  parse_scalar-IsDone : (tag : ℕ) (payload : Bytes) → IsDone (parse_scalar parsers tag payload)
  unfolding parse_scalar
  parse_scalar-IsDone tag payload = if-IsDone (tag == b',') _ _ (IsDone-ok _) (
      if-IsDone (tag == b';') _ _ (guard-IsDone _ bad_text _ (λ e. cc) (IsDone-ok _)) (
        if-IsDone (tag == b'#') _ _
          (bind-IsDone _ _ (or_fail-IsDone (parse_int64 payload) bad_integer (λ e. cc))
            (λ a _. IsDone-ok _))
          (if-IsDone (tag == b'^') _ _
            (bind-IsDone _ _ (or_fail-IsDone (parsers.parse_float payload) bad_float (λ e. cc))
              (λ a _. IsDone-ok _))
            (if-IsDone (tag == b'!') _ _
              (if-IsDone (bytes_eq payload (codes "true")) _ _ (IsDone-ok (boolean true)) (
                if-IsDone (bytes_eq payload (codes "false")) _ _ (IsDone-ok (boolean false))
                  (IsDone-err _ bad_boolean (λ e. cc))))
              (if-IsDone (tag == b'~') _ _
                (guard-IsDone (is_empty payload) bad_null _ (λ e. cc) (IsDone-ok null))
                (IsDone-err _ unknown_tag (λ e. cc)))))))

  -- With enough fuel for its input each of the functions is done.
  Enough : ℕ → Type 0
  Enough f =
      ((depth : ℕ) (d : Bytes) → 2 * length d < f → IsDone (decode_tnetstring parsers f depth d))
      × ((depth tag : ℕ) (d : Bytes)
          → 2 * length d + 2 < f
          → IsDone (parse_value parsers f depth tag d))
      × ((depth : ℕ) (d : Bytes) → 2 * length d + 1 < f → IsDone (parse_list parsers f depth d))
      × ((depth : ℕ) (d : Bytes) (found : Fields F)
          → 2 * length d + 1 < f
          → IsDone (parse_map parsers f depth d found))

  value-IsDone :
      (f : ℕ)
      → Enough f
      → (depth tag : ℕ) (payload : Bytes) → 2 * length payload + 1 < f
      → IsDone (parse_value parsers (suc f) depth tag payload)
  unfolding Enough parse_value
  value-IsDone f (decodes, values, lists, maps) depth tag payload h =
      if-IsDone (tag == b']') _ _
        (bind-IsDone _ _ (lists (suc depth) payload h) (λ a _. IsDone-ok _))
        (if-IsDone (tag == b'}') _ _
          (bind-IsDone _ _ (maps (suc depth) payload no_fields h) (λ a _. IsDone-ok _))
          (parse_scalar-IsDone tag payload))

  decode-IsDone :
      (f : ℕ)
      → Enough f
      → (depth : ℕ) (d : Bytes) → 2 * length d < suc f
      → IsDone (decode_tnetstring parsers (suc f) depth d)
  unfolding Enough decode_tnetstring
  decode-IsDone f (decodes, values, lists, maps) depth d h =
      guard-IsDone _ too_deep _ (λ e. cc)
        (bind-IsDone (frame d) _ (frame-IsDone d) λ parts framed.
          let small = length-frame d parts framed in
          bind-IsDone (parse_value parsers f depth parts.1 parts.0) _
            (values depth parts.1 parts.0 (omega (arith, h, small))) (λ a _. IsDone-ok _))

  list-IsDone :
      (f : ℕ)
      → Enough f
      → (depth : ℕ) (d : Bytes) → 2 * length d + 1 < suc f
      → IsDone (parse_list parsers (suc f) depth d)
  unfolding Enough parse_list
  list-IsDone f enough depth [] h = IsDone-ok _
  list-IsDone f (decodes, values, lists, maps) depth (c ∷ cs) h =
      bind-IsDone (decode_tnetstring parsers f depth (c ∷ cs)) _
        (decodes depth (c ∷ cs) (omega (arith, h)))
        λ q read.
          let shorter = length-decode f depth (c ∷ cs) q.0 q.1 read in
          bind-IsDone _ _ (lists depth q.1 (omega (arith, h, shorter))) (λ a _. IsDone-ok _)

  map-IsDone :
      (f : ℕ)
      → Enough f
      → (depth : ℕ) (d : Bytes) (found : Fields F) → 2 * length d + 1 < suc f
      → IsDone (parse_map parsers (suc f) depth d found)
  unfolding Enough parse_map
  map-IsDone f enough depth [] found h = IsDone-ok _
  map-IsDone f (decodes, values, lists, maps) depth (c ∷ cs) found h =
      bind-IsDone (decode_tnetstring parsers f depth (c ∷ cs)) _
        (decodes depth (c ∷ cs) (omega (arith, h)))
        λ k read.
          let shorter = length-decode f depth (c ∷ cs) k.0 k.1 read in
          bind-IsDone (decode_tnetstring parsers f depth k.1) _
            (decodes depth k.1 (omega (arith, h, shorter)))
            λ v read_value.
              let shortest = length-decode f depth k.1 v.0 v.1 read_value in
              bind-IsDone _ _ (or_fail-IsDone (key_string k.0) bad_key (λ e. cc)) λ name _.
                maps depth v.1 (set_field name v.0 found) (omega (arith, h, shorter, shortest))

  enough_lem : (f : ℕ) → Enough f
  unfolding Enough
  enough_lem zero = (
    λ depth d h. absurd (omega (arith, h)),
    λ depth tag d h. absurd (omega (arith, h)),
    λ depth d h. absurd (omega (arith, h)),
    λ depth d found h. absurd (omega (arith, h)),
  )
  enough_lem (suc f) =
      let ih = enough_lem f in
      (
        decode-IsDone f ih,
        λ depth tag d h. value-IsDone f ih depth tag d (omega (arith, h)),
        list-IsDone f ih,
        map-IsDone f ih,
      )

  -- On any input whatever, decodeTNetstring ends: a round of fuel for each half of a byte is enough for
  -- it, however the values in it are nested.
  pub decode_tnetstring-total :
      (f depth : ℕ) (d : Bytes)
      → 2 * length d < f
      → decode_tnetstring parsers f depth d ≢ err out_of_fuel
  unfolding Enough
  decode_tnetstring-total f depth d h = IsDone-enough _ ((enough_lem f).0 depth d h)

  decoded-IsDone : (d : Bytes) → IsDone (decode_tnetstring parsers (2 * length d + 1) 0 d)
  unfolding Enough
  decoded-IsDone d = (enough_lem (2 * length d + 1)).0 0 d (omega arith)

  flows-IsDone :
      {Flow : Type 0} (flow_from_state : Fields F → Option Flow) (fuel : ℕ) (d : Bytes)
      → length d ≤ fuel
      → IsDone (decode_flows parsers flow_from_state fuel d)
  unfolding decode_flows
  flows-IsDone flow fuel [] h = IsDone-ok []
  flows-IsDone flow zero (c ∷ cs) h = absurd (omega (arith, h))
  flows-IsDone flow (suc fuel) (c ∷ cs) h =
      let d = c ∷ cs in
      bind-IsDone (decode_tnetstring parsers (2 * length d + 1) 0 d) _ (decoded-IsDone d) λ q read.
        let shorter = length-decode (2 * length d + 1) 0 d q.0 q.1 read in
        bind-IsDone _ _ (or_fail-IsDone (as_object parsers q.0) not_an_object (λ e. cc)) λ fields _.
          bind-IsDone _ _ (or_fail-IsDone (version_of parsers fields) unsupported_version (λ e. cc))
            λ version _.
              guard-IsDone (int_eq version (pos 21)) unsupported_version _ (λ e. cc)
                (bind-IsDone _ _ (or_fail-IsDone (flow fields) bad_flow (λ e. cc)) λ a _.
                  bind-IsDone (decode_flows parsers flow fuel q.1) _
                    (flows-IsDone flow fuel q.1 (omega (arith, h, shorter)))
                    (λ rest _. IsDone-ok (a ∷ rest)))

  -- decodeFlowStream ends on any input: neither its own loop nor the nested decoding runs out of fuel.
  pub decode_flow_stream-total :
      {Flow : Type 0} (flow_from_state : Fields F → Option Flow) (d : Bytes)
      → decode_flow_stream parsers flow_from_state d ≢ err out_of_fuel
  unfolding decode_flow_stream
  decode_flow_stream-total flow d = IsDone-enough _ (flows-IsDone flow (length d) d (omega arith))
