-- ===== src/Cmd/Requested.antt =====
-- The options of a flow say what the flags do, and the files are those that the flags name.
use ssh_sign.Prelude.{List, some, none, ◌≡◌, refl, Result-cases, inl, inr}
use ssh_sign.Text.Bytes.{Bytes}
use ssh_sign.Text.Scan.{Reader}
use ssh_sign.Os.{Os, open_path, pure, ◌>>=◌, ◌>>◌}
use ssh_sign.Os.Results.{Yields, Yields-pure, Yields-bind, Yields-then, IsOpened}
use ssh_sign.Helper.{Parser}
use ssh_sign.Signers.Timestamp.{Time}
use ssh_sign.Flow.Choice.{NamedReader}
use ssh_sign.Flow.Verify.{VerifyOpts}
use ssh_sign.Cmd.Inputs.{InputError}
use ssh_sign.Cmd.Failure.{Role, verified_data, Failure}
use ssh_sign.Cmd.Prepare.{open_input, restrict}
use ssh_sign.Cmd.Verify.{VerifyArgs, verify_options}

module _ (os : Os) where
  open_input-IsOpened :
      (role : Role) (path : Bytes) → Yields (IsOpened os path) (open_input os role path)
  unfolding open_input
  open_input-IsOpened role path = record {
    at = λ h r e. elim (Result-cases (os.open_file h path)) [
      | inl (f, p) ↦ record {
        history = h;
        file = f;
        answered = p;
        reader_is = cc (rw (p, open_input, open_path) at e);
      }
      | inr (x, p) ↦ cc (rw (p, open_input, open_path) at e)
    ];
  }

  -- The signer and the namespace are those of the flags, and the data are read from the file that
  -- they name.
  pub record IsRequested (args : VerifyArgs) (opts : VerifyOpts) : Type 0 where
    pub principal_is : opts.principal ≡ args.principal
    pub namespace_is : opts.namespace ≡ args.namespace
    pub no_namespace_is : opts.no_namespace ≡ args.no_namespace
    pub message : Reader
    pub reads_data : opts.verify_file ≡ some message
    pub is_opened : IsOpened os args.verify_file message

module _ (os : Os) (parse_time parse_local : Parser) (text : InputError → Bytes) where
  prepared-IsRequested :
      (args : VerifyArgs) (ts : Time) (signers : List NamedReader) (s : Reader)
      → Yields {E = Failure} (IsRequested os args) (do
        v ← open_input os verified_data args.verify_file
        restrict os
        pure (record {
          allowed_signers_file = none;
          allowed_signers_files = signers;
          namespace = args.namespace;
          no_namespace = args.no_namespace;
          principal = args.principal;
          signature_file = some s;
          timestamp = ts;
          verify_file = some v;
        }))
  prepared-IsRequested args ts signers s =
      Yields-bind (open_input os verified_data args.verify_file) _
        (open_input-IsOpened os verified_data args.verify_file)
        (λ v opened. Yields-then (restrict os) _ (λ _. Yields-pure _ (record {
          principal_is = refl;
          namespace_is = refl;
          no_namespace_is = refl;
          message = v;
          reads_data = refl;
          is_opened = opened;
        })))

  pub verify_options-IsRequested :
      (args : VerifyArgs)
      → Yields (IsRequested os args) (verify_options os parse_time parse_local text args)
  unfolding verify_options
  verify_options-IsRequested args = search (prepared-IsRequested, Yields-then) depth 10
