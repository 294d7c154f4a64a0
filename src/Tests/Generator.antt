-- ===== src/Tests/Generator.antt =====
-- The generator of the test data, over the sum as a hash.
use zk_fact_verification.Common.{◌%◌, ◌≡◌, refl, ℤ, pos, true, Result, ok, codes, arith}
use zk_fact_verification.Std.Slices.{trim_prefix}
use zk_fact_verification.Std.Digits.{set_string}
use zk_fact_verification.Circuit.{field_mod, main}
use zk_fact_verification.Prover.{ProverConfig}
use zk_fact_verification.Prover.Field.{hex_to_field}
use zk_fact_verification.Prover.Prepare.{Prepared, prepare}
use zk_fact_verification.Prover.Generator.{toml_of}
use zk_fact_verification.Prover.Generator.Witness.{circuit_inputs}
use zk_fact_verification.Request.{validate}
use zk_fact_verification.Testdata.{
  Crypto, TestData, hex_to_big, test_holder_secret, test_valid_until, generate,
}
use zk_fact_verification.Testdata.Hashes.{IsSound}
use zk_fact_verification.Testdata.Accepted.{generate_accepted}
use zk_fact_verification.Tests.Toy.{field_sum, sum_hash, sum_lib, sum_SameHash, sum_HashesField}

-- There is one key, and every signature verifies.
abbrev crypto : Crypto
crypto = record {
  PrivKey = Unit {0};
  public_x = λ k. pos 1;
  public_y = λ k. pos 2;
  sign_poseidon = λ k m. record { r8x = pos 3; r8y = pos 4; s = m };
  verify_poseidon = λ x y m sig. true;
  poseidon = λ xs. pos (field_sum xs % field_mod);
  undefined = λ h. pos 0;
}

ok_inj : {a b : ℤ} → ◌≡◌ {A = Result ℤ} (ok a) (ok b) → a ≡ b
ok_inj h = cc

sound : IsSound sum_hash sum_lib crypto tt
unfolding sum_hash
sound = record {
  agree = sum_SameHash;
  total = sum_HashesField;
  returns = λ xs h e. ok_inj e;
  x_small = omega arith;
  y_small = omega arith;
  signs = λ m small. refl;
  same_eddsa = λ m sig h. refl;
}

abbrev holder_cfg : ProverConfig
holder_cfg = record {
  circuit_dir = codes "circuit";
  nargo_bin = codes "nargo";
  bb_bin = codes "bb";
  holder_secret = codes "0x00deadbeef00000000000000000000000000000000000000000000000000001";
}

secret_text : hex_to_field holder_cfg.holder_secret ≡ ok (test_holder_secret crypto)
unfolding hex_to_field test_holder_secret hex_to_big set_string trim_prefix
secret_text = refl

generate_accepted_example :
    (made : TestData) × (p : Prepared) × (generate crypto tt ≡ ok made)
    × (validate (λ t. ok 9) 8 made.request ≡ ok tt)
    × (prepare sum_hash holder_cfg made.credential made.request made.issuer_policy ≡ ok p)
    × (made.prover_toml ≡ toml_of made.credential made.request p test_valid_until)
    × (main sum_lib (circuit_inputs made.credential made.request p test_valid_until) ≡ ok tt)
generate_accepted_example =
    generate_accepted sum_hash sum_lib crypto tt sound holder_cfg secret_text (λ t. ok 9) 8 9 refl
      (omega arith)
