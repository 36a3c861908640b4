-- ===== src/Prometheus/Queries.antt =====
-- internal/prometheus/queries.go: the four PromQL queries, with the names escaped in them.
pub mod Literals
use Prim.Native.Char.{code}
use ovro.Prelude.{◌==◌, ◌<>◌, if◌then◌else◌, ℕ, String}

-- `strings.ReplaceAll` of a single character, given by its code.
unfoldable pub replace_all : ℕ → String → String → String
replace_all old new String.[] = ""
replace_all old new (String.◌∷◌ c s) =
    let rest = replace_all old new s in if code c == old then new <> rest else String.◌∷◌ c rest

-- Backslash, quotation mark, line feed and carriage return, in the source's order.
unfoldable pub sanitize_label_value : String → String
unfolding replace_all
sanitize_label_value s =
    replace_all 13 "" (replace_all 10 "" (replace_all 34 "\\\"" (replace_all 92 "\\\\" s)))

unfoldable pub cpu_usage_query : String → String → String → String
unfolding sanitize_label_value
cpu_usage_query vm_name namespace lookback =
    "rate(kubevirt_vmi_cpu_usage_seconds_total{name=\""
    <> (sanitize_label_value vm_name
        <> ("\",namespace=\""
            <> (sanitize_label_value namespace <> ("\"}[5m])[" <> (lookback <> ":1m]")))))

unfoldable pub memory_resident_query : String → String → String → String
unfolding sanitize_label_value
memory_resident_query vm_name namespace lookback =
    "kubevirt_vmi_memory_resident_bytes{name=\""
    <> (sanitize_label_value vm_name
        <> ("\",namespace=\"" <> (sanitize_label_value namespace <> ("\"}[" <> (lookback <> "]")))))

unfoldable pub container_cpu_query : String → String → String → String
unfolding sanitize_label_value
container_cpu_query container namespace lookback =
    "rate(container_cpu_usage_seconds_total{container=\""
    <> (sanitize_label_value container
        <> ("\",namespace=\""
            <> (sanitize_label_value namespace
                <> ("\",image!=\"\"}[5m])[" <> (lookback <> ":1m]")))))

unfoldable pub container_memory_query : String → String → String → String
unfolding sanitize_label_value
container_memory_query container namespace lookback =
    "container_memory_working_set_bytes{container=\""
    <> (sanitize_label_value container
        <> ("\",namespace=\""
            <> (sanitize_label_value namespace <> ("\",image!=\"\"}[" <> (lookback <> "]")))))
