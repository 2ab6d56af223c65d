-- ===== src/Jose/Jws/Calls.antt =====
-- jose/jws.rs: the sequences of calls that the types of the builder allow.
use infosec.Common.{◌≡◌, refl, ap, ◌∙◌, List, [], ◌∷◌, ◌++◌, Text, codes}
use infosec.Traits.{Signer}
use infosec.Jose.Jws.Builder.{
  JwsBuilder, Payload, Signers, new, set_payload, set_jwt_type, add_signer as add_to,
}

-- A call on a builder that has a signer.
pub data Call : Type 0 where
  jwt_type : Text → Call
  add_signer : Signer → Call

abbrev pub perform : {P : Type 0} → Call → JwsBuilder P Signers → JwsBuilder P Signers
perform (jwt_type typ) b = set_jwt_type b typ
perform (add_signer signer) b = add_to b signer

abbrev pub run : {P : Type 0} → List Call → JwsBuilder P Signers → JwsBuilder P Signers
run [] b = b
run (c ∷ cs) b = run cs (perform c b)

-- The calls on one that has none.
abbrev pub typed : {P S : Type 0} → List Text → JwsBuilder P S → JwsBuilder P S
typed [] b = b
typed (t ∷ ts) b = typed ts (set_jwt_type b t)

-- What the calls come to.
abbrev pub last : Text → List Text → Text
last t [] = t
last t (u ∷ us) = last u us

abbrev pub last_type : Text → List Call → Text
last_type t [] = t
last_type t (jwt_type u ∷ cs) = last_type u cs
last_type t (add_signer s ∷ cs) = last_type t cs

abbrev pub last_signer : Signer → List Call → Signer
last_signer s [] = s
last_signer s (jwt_type u ∷ cs) = last_signer s cs
last_signer s (add_signer r ∷ cs) = last_signer r cs

abbrev pub holding : {T : Type 0} → Text → T → Signer → JwsBuilder (Payload T) Signers
holding typ value signer = record {
  typ = typ;
  payload = record { value = value };
  signers = record { list = signer ∷ [] };
}

typed-record :
    {P S : Type 0} (ts : List Text) (b : JwsBuilder P S)
    → typed ts b ≡ record b { typ = last b.typ ts }
unfolding set_jwt_type
typed-record [] b = refl
typed-record (t ∷ ts) b = typed-record ts (record b { typ = t })

run-holding :
    {T : Type 0} (cs : List Call) (typ : Text) (value : T) (signer : Signer)
    → run cs (holding typ value signer) ≡ holding (last_type typ cs) value (last_signer signer cs)
unfolding set_jwt_type add_to
run-holding [] typ value signer = refl
run-holding (jwt_type t ∷ cs) typ value signer = run-holding cs t value signer
run-holding (add_signer s ∷ cs) typ value signer = run-holding cs typ value s

last-append : (t : Text) (us vs : List Text) → last (last t us) vs ≡ last t (us ++ vs)
last-append t [] vs = refl
last-append t (u ∷ us) vs = last-append u us vs

-- Whatever calls are made on a new builder in an order that its types allow (the payload once and
-- before any signer, then a first signer, and types at any time): it holds the payload, the last
-- type that was set, or `jwt`, and the one signer that was added last; those that were added before
-- are lost.
pub run_holds :
    {T : Type 0} (value : T) (before between : List Text) (signer : Signer) (later : List Call)
    → run later (add_to (typed between (set_payload (typed before new) value)) signer)
      ≡ holding
          (last_type (last (codes "jwt") (before ++ between)) later)
          value
          (last_signer signer later)
unfolding set_payload add_to new
run_holds value before between signer later =
    ap (λ b. run later (add_to (typed between (set_payload b value)) signer))
      (typed-record before new)
    ∙ ap (λ b. run later (add_to b signer)) (typed-record between _)
    ∙ run-holding later (last (last (codes "jwt") before) between) value signer
    ∙ ap (λ t. holding (last_type t later) value (last_signer signer later))
        (last-append (codes "jwt") before between)
