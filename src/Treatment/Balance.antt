-- ===== src/Treatment/Balance.antt =====
-- The outcomes of a normalised treatment account for the received weight, to the cent.
use team5_ewaste_platform.Common.{
  ℕ, ◌+◌, ◌-◌, ◌/◌, ◌≤◌, ◌<◌, ◌≡◌, ◌≢◌, Text, Option, none, some, arith, ok, err, ltb, Bool-cases,
  sym, ◌∙◌, inl, inr, >>=-eq-ok,
}
use mathlib.Core.Path.{subst}
use team5_ewaste_platform.Treatment.{
  TreatmentRequest, NormalizedTreatment, complete, partial, missing, allocate, balance, share,
  outcomes, received_cents, normalize_treatment_request, parse_treatment_cents,
  format_treatment_cents, max_whole_kg,
}
use team5_ewaste_platform.Treatment.RoundTrip.{parse-format, parse_range}

-- The cents of an optional printed weight; an absent weight, or one that cannot be read, counts 0.
abbrev pub cents_of : Option Text → ℕ
cents_of none = 0
cents_of (some s) = elim (parse_treatment_cents s "weight") [ ok n ↦ n | err _ ↦ 0 ]

-- What the source promises of a normalised treatment of `received` cents.
pub record IsBalanced (received : ℕ) (v : NormalizedTreatment) : Type 0 where
  pub total :
      cents_of v.reused_kg + cents_of v.recycled_kg + cents_of v.disposed_kg + cents_of v.unknown_kg
      ≡ received
  pub received_kept : parse_treatment_cents v.received_weight_kg "weight" ≡ ok received
  pub diverted : cents_of v.diverted_kg ≡ cents_of v.reused_kg + cents_of v.recycled_kg
  pub complete_exact : v.data_quality ≡ complete → cents_of v.unknown_kg ≡ 0
  pub partial_exact : v.data_quality ≡ partial → cents_of v.unknown_kg ≢ 0
  pub missing_exact : v.data_quality ≡ missing → cents_of v.unknown_kg ≡ received

cents_of-format : (n : ℕ) → n / 100 ≤ max_whole_kg → cents_of (some (format_treatment_cents n)) ≡ n
cents_of-format n h = ground (arith, parse-format n "weight" h)

share-IsBalanced :
    (received reused recycled disposed : ℕ) (e : Option Text)
    → received / 100 ≤ max_whole_kg
    → reused + recycled + disposed ≤ received
    → IsBalanced received (share received reused recycled disposed e)
share-IsBalanced received reused recycled disposed e bound fits =
    let r = cents_of-format reused (omega arith) in
    let y = cents_of-format recycled (omega arith) in
    let d = cents_of-format disposed (omega arith) in
    let u = cents_of-format (received - reused - recycled - disposed) (omega arith) in
    let v = cents_of-format (reused + recycled) (omega arith) in
    record {
      total = rw (r, y, d, u) (omega arith);
      received_kept = parse-format received "weight" bound;
      diverted = rw (v, r, y);
      complete_exact = λ h. rw u (ground arith);
      partial_exact = λ h. rw u (ground arith);
      missing_exact = λ h. absurd (ground arith);
    }

balance-IsBalanced :
    (received reused recycled disposed : ℕ) (e : Option Text) {v : NormalizedTreatment}
    → received / 100 ≤ max_whole_kg
    → balance received reused recycled disposed e ≡ ok v
    → IsBalanced received v
unfolding balance
balance-IsBalanced received reused recycled disposed e bound h =
    elim (Bool-cases (ltb received (reused + recycled + disposed))) [
      | inl over ↦ absurd (ground arith)
      | inr fits ↦
          subst (IsBalanced received) (ok_share (ground arith))
            (share-IsBalanced received reused recycled disposed e bound (ground arith))
    ]
  where
    ok_share : {a b : NormalizedTreatment} → ok a ≡ ok b → a ≡ b
    ok_share p = cc

allocate_lem :
    (received reused recycled disposed : ℕ) (a b c : Text) (e : Option Text)
    → parse_treatment_cents a "reused_kg" ≡ ok reused
    → parse_treatment_cents b "recycled_kg" ≡ ok recycled
    → parse_treatment_cents c "disposed_kg" ≡ ok disposed
    → allocate received a b c e ≡ balance received reused recycled disposed e
unfolding allocate
allocate_lem received x y z a b c e ha hb hc = rw (ha, hb, hc)

-- A successful allocation has read its three outcomes.
allocate_inputs :
    (received : ℕ) (a b c : Text) (e : Option Text) (v : NormalizedTreatment)
    → allocate received a b c e ≡ ok v
    → (x y z : ℕ) × (parse_treatment_cents a "reused_kg" ≡ ok x)
      × (parse_treatment_cents b "recycled_kg" ≡ ok y)
      × (parse_treatment_cents c "disposed_kg" ≡ ok z)
unfolding allocate
allocate_inputs received a b c e v h =
    let (x, hx, h') = >>=-eq-ok (parse_treatment_cents a "reused_kg") _ h in
    let (y, hy, h'') = >>=-eq-ok (parse_treatment_cents b "recycled_kg") _ h' in
    let (z, hz, _) = >>=-eq-ok (parse_treatment_cents c "disposed_kg") _ h'' in
    (x, y, z, hx, hy, hz)

allocate-IsBalanced :
    (received : ℕ) (a b c : Text) (e : Option Text) (v : NormalizedTreatment)
    → received / 100 ≤ max_whole_kg
    → allocate received a b c e ≡ ok v
    → IsBalanced received v
allocate-IsBalanced received a b c e v bound h =
    let (x, y, z, hx, hy, hz) = allocate_inputs received a b c e v h in
    balance-IsBalanced received x y z e bound
      (sym (allocate_lem received x y z a b c e hx hy hz) ∙ h)

outcomes-IsBalanced :
    (received : ℕ) (a b c e : Option Text) (v : NormalizedTreatment)
    → received / 100 ≤ max_whole_kg
    → outcomes received a b c e ≡ ok v
    → IsBalanced received v
unfolding outcomes
outcomes-IsBalanced received none none none e v bound h =
    ground (arith, parse-format received "weight" bound)
outcomes-IsBalanced received (some a) (some b) (some c) e v bound h =
    allocate-IsBalanced received a b c e v bound h
outcomes-IsBalanced received _ _ _ e v bound h = cc

received_cents_lem :
    (raw : Text) (n : ℕ)
    → received_cents raw ≡ ok n
    → (parse_treatment_cents raw "received_weight_kg" ≡ ok n) × (0 < n)
unfolding received_cents
received_cents_lem raw n h = ground arith

-- When a treatment request is accepted, the received weight that the receipt states was readable and
-- positive; the reused, recycled, disposed and unknown weights stored add up to exactly that weight;
-- the diverted weight is the reused and recycled weight together; the quality is COMPLETE only with
-- no unknown weight, PARTIAL only with some, and MISSING only with all of it unknown.
pub normalize-IsBalanced :
    (request : TreatmentRequest) (weight : Text) (v : NormalizedTreatment)
    → normalize_treatment_request request weight ≡ ok v
    → (received : ℕ) × (parse_treatment_cents weight "received_weight_kg" ≡ ok received)
      × (0 < received)
      × IsBalanced received v
unfolding normalize_treatment_request
normalize-IsBalanced request weight v h =
    let (received, hr, h') = >>=-eq-ok (received_cents weight) _ h in
    let (w, hw, h'') =
      >>=-eq-ok (outcomes received request.reused_kg request.recycled_kg request.disposed_kg none) _
        h' in
    let (read, positive) = received_cents_lem weight received hr in
    let balanced : IsBalanced received w =
      outcomes-IsBalanced received _ _ _ none w (parse_range weight "received_weight_kg" read) hw in
    (received, read, positive, ground arith)
