-- ===== src/Registry/Versions.antt =====
-- The version texts of pkg/registry/tasks/task/helpers.go.
use simple_api_server.Prelude.{ℕ, ◌<◌, ◌≡◌}
use simple_api_server.Prelude.Decimal.{uint64_mod, parse_uint-format_uint}
use simple_api_server.Registry.Checks.{parse_rv_or_zero, format_rv}

-- parseRVOrZero reads back every version below 2 ^ 64 that formatRV has printed.
pub parse_rv_or_zero-format_rv : (n : ℕ) → n < uint64_mod → parse_rv_or_zero (format_rv n) ≡ n
unfolding parse_rv_or_zero
parse_rv_or_zero-format_rv n h = rw (parse_uint-format_uint n h, parse_rv_or_zero)
