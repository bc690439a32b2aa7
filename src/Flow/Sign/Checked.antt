-- ===== src/Flow/Sign/Checked.antt =====
-- What `Sign` creates passes `Check`.
use ssh_sign.Prelude.{false, none, some}
use ssh_sign.Text.Bytes.{Bytes}
use ssh_sign.Text.Scan.{Reader}
use ssh_sign.Ssh.{Ssh}
use ssh_sign.Sshsig.Structure.{Signature}
use ssh_sign.Sshsig.Armored.{Pem}
use ssh_sign.Sshsig.Armor.{armor}
use ssh_sign.Signers.Timestamp.{Time}
use ssh_sign.Flow.Check.{CheckOpts}

module _ (ssh : Ssh) where
  open ssh use {PublicKey, marshal_key}

  module _ (decode_pem : Pem) where
    -- The check of a signature file against a key line, a namespace and the message, at the time
    -- of the clock.
    abbrev pub check_file : Time → Bytes → Bytes → Signature PublicKey → Reader → CheckOpts
    check_file unset key ns sig r = record {
      auth_key = key;
      namespace = ns;
      no_auth_key = false;
      no_namespace = false;
      signature_file = some (record { content = armor ssh sig; failure = none });
      timestamp = unset;
      verify_file = some r;
    }
