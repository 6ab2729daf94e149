-- ===== src/Examples/Plain.antt =====
-- Runs of the plain relay.
use raise_my_freedom.Common.{ℕ, ◌≡◌, refl, Bool, true, false, List, [], ◌∷◌, arith}
use raise_my_freedom.Sni.Splice.Relayed.{sent}
use raise_my_freedom.Plain.Pump.{PumpSettings, got, ended, quiet, Round, looked, pump}
use raise_my_freedom.Plain.Pump.Delivered.{received, pump-received}
use raise_my_freedom.Plain.Children.{Steps, comes, here, then_step, start_count, accept_one}
use raise_my_freedom.Plain.Children.Limit.{IsCounted, Steps-IsCounted, Steps-drift}

abbrev settings : PumpSettings
settings = record { chunk = 2; split_data = false; split_size = 512 }

abbrev always : ℕ → Bool
always k = true

-- The client ends, and the server goes on.
abbrev rounds : List Round
rounds =
    looked (got (1 ∷ 2 ∷ 3 ∷ [])) quiet
    ∷ looked ended (got (4 ∷ []))
    ∷ looked quiet (got (5 ∷ []))
    ∷ []

pump-received_example :
    sent false (pump settings always 0 rounds false false) ≡ received false rounds false false
pump-received_example = pump-received settings always (λ k. refl) refl false 0 rounds false false

Steps-IsCounted_example : IsCounted (accept_one true start_count).1
Steps-IsCounted_example = Steps-IsCounted (then_step here (comes true))

Steps-drift_example : Steps start_count (record { children = 7; live = 0; pending = 0 })
Steps-drift_example = Steps-drift 7 (omega arith)
