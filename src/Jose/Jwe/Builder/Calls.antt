-- ===== src/Jose/Jwe/Builder/Calls.antt =====
-- jose/jwe/encrypt.rs: sequences of calls on the builder.
use mathlib.Core.List.{append-nil, append_assoc}
use infosec.Common.{◌≡◌, refl, ap, ◌∙◌, List, [], ◌∷◌, ◌++◌, Text}
use infosec.Jose.Jwe.Algorithms.{ContentAlgorithm, KeyAlgorithm, a256gcm, ecdh_es}
use infosec.Jose.Jwe.Key.{PublicKey}
use infosec.Jose.Jwe.Encrypt.{Recipient}
use infosec.Jose.Jwe.Builder.{
  JweBuilder, NoPayload, Payload, new, set_payload, set_content_algorithm, set_key_algorithm,
  add_recipient,
}

-- A call on the builder, besides the one that sets the payload.
pub data Call : Type 0 where
  content_algorithm : ContentAlgorithm → Call
  key_algorithm : KeyAlgorithm → Call
  recipient : Text → PublicKey → Call

abbrev pub perform : {P : Type 0} → Call → JweBuilder P → JweBuilder P
perform (content_algorithm a) b = set_content_algorithm b a
perform (key_algorithm a) b = set_key_algorithm b a
perform (recipient key_id public_key) b = add_recipient b key_id public_key

abbrev pub run : {P : Type 0} → List Call → JweBuilder P → JweBuilder P
run [] b = b
run (c ∷ cs) b = run cs (perform c b)

-- What a sequence of calls comes to: the last algorithm of each kind, and every recipient.
abbrev pub last_content : ContentAlgorithm → List Call → ContentAlgorithm
last_content a [] = a
last_content a (content_algorithm b ∷ cs) = last_content b cs
last_content a (_ ∷ cs) = last_content a cs

abbrev pub last_key : KeyAlgorithm → List Call → KeyAlgorithm
last_key a [] = a
last_key a (key_algorithm b ∷ cs) = last_key b cs
last_key a (_ ∷ cs) = last_key a cs

abbrev pub named : List Call → List Recipient
named [] = []
named (recipient key_id public_key ∷ cs) =
    record { key_id = key_id; public_key = public_key } ∷ named cs
named (_ ∷ cs) = named cs

abbrev outcome : {P : Type 0} → JweBuilder P → List Call → JweBuilder P
outcome b cs = record {
  content_algorithm = last_content b.content_algorithm cs;
  key_algorithm = last_key b.key_algorithm cs;
  payload = b.payload;
  recipients = b.recipients ++ named cs;
}

run-outcome : {P : Type 0} → (cs : List Call) (b : JweBuilder P) → run cs b ≡ outcome b cs
unfolding set_content_algorithm set_key_algorithm add_recipient
run-outcome [] b = same b (append-nil b.recipients)
  where
    same :
        {P : Type 0} (b : JweBuilder P) {rs : List Recipient}
        → rs ≡ b.recipients
        → b ≡ record b { recipients = rs }
    same b e = cc
run-outcome (content_algorithm a ∷ cs) b = run-outcome cs (set_content_algorithm b a)
run-outcome (key_algorithm a ∷ cs) b = run-outcome cs (set_key_algorithm b a)
run-outcome (recipient key_id public_key ∷ cs) b =
    run-outcome cs (add_recipient b key_id public_key)
    ∙ ap (λ rs. record (outcome b cs) { recipients = rs })
        (append_assoc b.recipients (record { key_id = key_id; public_key = public_key } ∷ [])
          (named cs))

run-append :
    {P : Type 0} (before later : List Call) (b : JweBuilder P)
    → run later (run before b) ≡ run (before ++ later) b
run-append [] later b = refl
run-append (c ∷ cs) later b = run-append cs later (perform c b)

set_payload-run :
    {T : Type 0} (value : T) (cs : List Call) (b : JweBuilder NoPayload)
    → set_payload (run cs b) value ≡ run cs (set_payload b value)
set_payload-run value [] b = refl
set_payload-run value (content_algorithm a ∷ cs) b =
    set_payload-run value cs (set_content_algorithm b a)
    ∙ ap (run cs) (unfold set_payload set_content_algorithm in refl)
set_payload-run value (key_algorithm a ∷ cs) b =
    set_payload-run value cs (set_key_algorithm b a)
    ∙ ap (run cs) (unfold set_payload set_key_algorithm in refl)
set_payload-run value (recipient key_id public_key ∷ cs) b =
    set_payload-run value cs (add_recipient b key_id public_key)
    ∙ ap (run cs) (unfold set_payload add_recipient in refl)

-- The builder with a payload after a sequence of calls, with the algorithms of one on which none was
-- set.
abbrev pub holding : {T : Type 0} → T → List Call → JweBuilder (Payload T)
holding value cs = record {
  content_algorithm = last_content a256gcm cs;
  key_algorithm = last_key ecdh_es cs;
  payload = record { value = value };
  recipients = named cs;
}

outcome-holding :
    {T : Type 0} (value : T) (cs : List Call)
    → outcome (set_payload new value) cs ≡ holding value cs
unfolding new set_payload
outcome-holding value cs = refl

-- Whatever calls are made on a new builder, before and after the payload is set, and in whatever
-- order: it holds the last algorithm of each kind that was set, or A256GCM and ECDH-ES, the
-- payload, and all recipients in the order in which they were added.
pub run-new :
    {T : Type 0} (value : T) (before later : List Call)
    → run later (set_payload (run before new) value) ≡ holding value (before ++ later)
run-new value before later =
    ap (run later) (set_payload-run value before new)
    ∙ run-append before later (set_payload new value)
    ∙ run-outcome (before ++ later) (set_payload new value)
    ∙ outcome-holding value (before ++ later)
