-- ===== src/Tests/Numbers.antt =====
-- Percentages, percentiles and the metrics of a VM at whole numbers.
use ovro.Prometheus.Queries.{sanitize_label_value}
use ovro.Platform.Memory.{Cluster}
use ovro.Prometheus.Queries.Literals.{read_quoted-sanitize_label_value, one_line, read_quoted}
use ovro.Prometheus.Samples.{max_value_lem, get_vm_utilization-some}
use ovro.Calculator.Percentile.Ranks.{compute_percentile-some}
use ovro.Prometheus.{
  max_value, get_vm_utilization, Utilization, text, parse_value, parse_values, other, parse_series,
  query_range, query_both, get_vm_metrics, Client,
}
use ovro.Calculator.Percentile.{compute_percentile}
use ovro.Prelude.Int.{negsuc, ◌≤ℤ◌, pos, leb_ℤ, ◌*ℤ◌, ℤ, quot}
use ovro.Floats.Laws.{◌⊑◌, IsRounding, IsOrdered}
use mathlib.Core.Path.{refl}
use Prim.Native.Nat.{zero, suc}
use ovro.Tests.{before_all, show, owned_by, coarse}
use ovro.Prelude.{
  All, ◌<>◌, ok, false, inr, inl, [], ◌∷◌, true, some, Bool-cases, ℕ, arith, List, ◌≡◌,
}

coarse-IsOrdered : IsOrdered coarse
coarse-IsOrdered = record {
  le_trans = λ x y z h k. ground arith;
  le_total =
      λ x y h k. elim (Bool-cases (leb_ℤ x y)) [ inl e ↦ inl e | inr e ↦ inr (ground arith) ];
  less_numbers = λ x y h. (ground arith, ground arith);
  le_numbers = λ x y h. (ground arith, ground arith);
  less-not-le = λ x y h k. ground arith;
}

coarse-hundredth :
    (p : ℤ)
    → pos 0 ≤ℤ p
    → p ≤ℤ pos 100
    → (leb_ℤ (pos 0) (quot p 100) ≡ true) × (leb_ℤ (quot p 100) (pos 1) ≡ true)
unfolding quot
coarse-hundredth (pos n) a b = (ground arith, ground arith)
coarse-hundredth (negsuc n) a b = absurd (omega arith)

coarse-mul :
    (x : ℤ) (n : ℕ)
    → leb_ℤ (pos 0) x ≡ true
    → leb_ℤ x (pos 1) ≡ true
    → (leb_ℤ (pos 0) (x *ℤ pos n) ≡ true) × (leb_ℤ (x *ℤ pos n) (pos n) ≡ true)
unfolding ◌*ℤ◌
coarse-mul (pos zero) n a b = (ground arith, ground arith)
coarse-mul (pos (suc zero)) n a b = (ground arith, ground arith)
coarse-mul (pos (suc (suc m))) n a b = ground arith
coarse-mul (negsuc m) n a b = ground arith

coarse-IsRounding : IsRounding coarse
coarse-IsRounding = record {
  floor_of_int = λ n h. refl;
  ceil_of_int = λ n h. refl;
  floor_mono = λ x y n h k l. ground arith;
  ceil_mono = λ x y n h k l. ground arith;
  floor-le-ceil = λ x n h. ground arith;
  of_int_mono = λ a b h. ground arith;
  hundredth = coarse-hundredth;
  mul_within = coarse-mul;
}

abbrev samples : List ℤ
samples = pos 30 ∷ pos 10 ∷ pos 20 ∷ []

compute_percentile-some_example : (x : ℤ) × (compute_percentile coarse samples (pos 95) ≡ some x)
compute_percentile-some_example =
    compute_percentile-some coarse coarse-IsRounding samples (pos 95) (ground arith) (ground arith)
      (ground arith)

max_value_lem_example :
    All (λ x. ◌⊑◌ coarse x (max_value coarse samples)) samples
    × (◌⊑◌ coarse (max_value coarse samples) (pos 40))
max_value_lem_example =
    max_value_lem coarse coarse-IsOrdered (pos 30) (pos 40) (pos 10 ∷ pos 20 ∷ [])
      (refl, (refl, (refl, tt))) (refl, (refl, (refl, tt)))

-- A metrics server that answers every query with two samples of 40, the one with a label.
abbrev sampled : Client (Cluster ℤ)
sampled = record {
  base_url = "http://metrics";
  bearer_token = "";
  get = λ url token w. ok (record {
    status = 200;
    body = "";
    decoded = ok (record {
      result =
          (record {
            metric = owned_by "ann";
            values = (other ∷ text "40" ∷ []) ∷ (other ∷ text "40" ∷ []) ∷ [];
          })
          ∷ [];
    });
  });
  encode_query = λ q. q;
}

get_vm_utilization-some_example :
    (u : Utilization ℤ) × (get_vm_utilization coarse show sampled "web" "shop"
        (pos 30)
        (pos 8)
        (pos 16)
        before_all
      ≡ some (ok u))
    × (u.data_points ≡ pos 2)
unfolding get_vm_metrics query_both query_range parse_series parse_values parse_value
get_vm_utilization-some_example =
    get_vm_utilization-some coarse coarse-IsRounding show sampled "web" "shop" (pos 30) (pos 8)
      (pos 16) before_all
      (record { cpu_samples = pos 40 ∷ pos 40 ∷ []; memory_samples = pos 40 ∷ pos 40 ∷ [] }) refl
      (ground arith) (ground arith)

read_quoted-sanitize_label_value_example :
    read_quoted false (sanitize_label_value "we\"b\n" <> ("\"" <> "}"))
    ≡ some (one_line "we\"b\n", "}")
read_quoted-sanitize_label_value_example = read_quoted-sanitize_label_value "we\"b\n" "}"
