-- ===== src/Jose/Jwe/Decrypt/Reads.antt =====
-- What `decrypt` reads of a message.
use infosec.Common.{◌≡◌, refl, Option}
use infosec.Foreign.Encodings.{Codec}
use infosec.Traits.{Receiver}
use infosec.Jose.Jwe.Data.{Recipients, Protected, Jwe}
use infosec.Jose.Jwe.Libraries.{Libraries}
use infosec.Jose.Jwe.Decrypt.{find_recipient, decrypt_content, decrypt}

module _ (lib : Libraries) {Json : Type 0} {T : Type 0} (json : Codec T) where
  -- The message with other headers and other recipients.
  abbrev pub with_headers : Jwe Json → Protected → Option Json → Recipients → Jwe Json
  with_headers jwe protected unprotected recipients = record jwe {
    protected = protected;
    unprotected = unprotected;
    recipients = recipients;
  }

  -- `decrypt` reads of a message the entry of its receiver and the four parts of the content, and
  -- nothing else: with another protected header, another shared header and other recipients among
  -- which the receiver's entry is the same, the result is the same, an error and a panic included.
  pub decrypt_agrees :
      (jwe : Jwe Json) (receiver : Receiver) (protected : Protected) (unprotected : Option Json)
      (recipients : Recipients)
      → find_recipient receiver.key_id recipients ≡ find_recipient receiver.key_id jwe.recipients
      → decrypt lib json (with_headers jwe protected unprotected recipients) receiver
        ≡ decrypt lib json jwe receiver
  unfolding decrypt decrypt_content
  decrypt_agrees jwe receiver protected unprotected recipients same = rw same refl
