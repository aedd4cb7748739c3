-- ===== src/Dispatcher/Decimal.antt =====
-- The verb `%d` of package fmt, in the texts of server/internal/dispatcher/dispatcher.go.
use Prim.Native.String.{String, ◌++◌, slice}
use distribuid_system_simula.Prelude.{ℕ, zero, suc, ◌+◌, ◌/◌, ◌%◌, true, false, ltb}

digit : ℕ → String
digit d = slice "0123456789" d (d + 1)

-- The digits of `n` before `rest`; the fuel is more than their number.
digits : ℕ → ℕ → String → String
unfolding digit
digits zero n rest = rest
digits (suc fuel) n rest =
    let shown = digit (n % 10) ++ rest in
    elim (ltb n 10) [ true ↦ shown | false ↦ digits fuel (n / 10) shown ]

unfoldable pub decimal : ℕ → String
unfolding digits
decimal n = digits (suc n) n ""
