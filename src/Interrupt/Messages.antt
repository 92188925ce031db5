-- ===== src/Interrupt/Messages.antt =====
-- kernel/interrupt.c: the messages that are not ASCII, by their UTF-8 bytes.
use os_simple.Base.{ℕ, List, [], ◌∷◌}

-- interrupt.c, line 19.
abbrev pub interrupts_starting : List ℕ
interrupts_starting =
    91 ∷ 75 ∷ 69 ∷ 82 ∷ 78 ∷ 69 ∷ 76 ∷ 93 ∷ 32 ∷ 216 ∷ 170 ∷ 217 ∷ 135 ∷ 217 ∷ 138 ∷ 216 ∷ 166 ∷ 216
    ∷ 169 ∷ 32 ∷ 217 ∷ 134 ∷ 216 ∷ 184 ∷ 216 ∷ 167 ∷ 217 ∷ 133 ∷ 32 ∷ 216 ∷ 167 ∷ 217 ∷ 132 ∷ 217
    ∷ 133 ∷ 217 ∷ 130 ∷ 216 ∷ 167 ∷ 216 ∷ 183 ∷ 216 ∷ 185 ∷ 216 ∷ 167 ∷ 216 ∷ 170 ∷ 46 ∷ 46 ∷ 46
    ∷ 10 ∷ []

-- interrupt.c, line 44.
abbrev pub interrupts_ready : List ℕ
interrupts_ready =
    91 ∷ 75 ∷ 69 ∷ 82 ∷ 78 ∷ 69 ∷ 76 ∷ 93 ∷ 32 ∷ 216 ∷ 170 ∷ 217 ∷ 133 ∷ 32 ∷ 216 ∷ 170 ∷ 217 ∷ 135
    ∷ 217 ∷ 138 ∷ 216 ∷ 166 ∷ 216 ∷ 169 ∷ 32 ∷ 217 ∷ 134 ∷ 216 ∷ 184 ∷ 216 ∷ 167 ∷ 217 ∷ 133 ∷ 32
    ∷ 216 ∷ 167 ∷ 217 ∷ 132 ∷ 217 ∷ 133 ∷ 217 ∷ 130 ∷ 216 ∷ 167 ∷ 216 ∷ 183 ∷ 216 ∷ 185 ∷ 216 ∷ 167
    ∷ 216 ∷ 170 ∷ 32 ∷ 216 ∷ 168 ∷ 217 ∷ 134 ∷ 216 ∷ 172 ∷ 216 ∷ 167 ∷ 216 ∷ 173 ∷ 10 ∷ []

-- interrupt.c, line 145.
abbrev pub unhandled_exception : List ℕ
unhandled_exception =
    91 ∷ 75 ∷ 69 ∷ 82 ∷ 78 ∷ 69 ∷ 76 ∷ 93 ∷ 32 ∷ 216 ∷ 167 ∷ 216 ∷ 179 ∷ 216 ∷ 170 ∷ 216 ∷ 171 ∷ 217
    ∷ 134 ∷ 216 ∷ 167 ∷ 216 ∷ 161 ∷ 32 ∷ 216 ∷ 186 ∷ 217 ∷ 138 ∷ 216 ∷ 177 ∷ 32 ∷ 217 ∷ 133 ∷ 216
    ∷ 185 ∷ 216 ∷ 167 ∷ 217 ∷ 132 ∷ 216 ∷ 172 ∷ 58 ∷ 32 ∷ []

-- interrupt.c, line 184.
abbrev pub key_pressed : List ℕ
key_pressed =
    91 ∷ 75 ∷ 66 ∷ 93 ∷ 32 ∷ 217 ∷ 133 ∷ 217 ∷ 129 ∷ 216 ∷ 170 ∷ 216 ∷ 167 ∷ 216 ∷ 173 ∷ 58 ∷ 32
    ∷ []

-- interrupt.c, line 191.
abbrev pub division_by_zero : List ℕ
division_by_zero =
    91 ∷ 69 ∷ 82 ∷ 82 ∷ 79 ∷ 82 ∷ 93 ∷ 32 ∷ 216 ∷ 174 ∷ 216 ∷ 183 ∷ 216 ∷ 163 ∷ 58 ∷ 32 ∷ 216 ∷ 167
    ∷ 217 ∷ 132 ∷ 217 ∷ 130 ∷ 216 ∷ 179 ∷ 217 ∷ 133 ∷ 216 ∷ 169 ∷ 32 ∷ 216 ∷ 185 ∷ 217 ∷ 132 ∷ 217
    ∷ 137 ∷ 32 ∷ 216 ∷ 181 ∷ 217 ∷ 129 ∷ 216 ∷ 177 ∷ 33 ∷ 10 ∷ []

-- interrupt.c, line 201.
abbrev pub page_fault_at : List ℕ
page_fault_at =
    91 ∷ 69 ∷ 82 ∷ 82 ∷ 79 ∷ 82 ∷ 93 ∷ 32 ∷ 216 ∷ 174 ∷ 216 ∷ 183 ∷ 216 ∷ 163 ∷ 32 ∷ 217 ∷ 129 ∷ 217
    ∷ 138 ∷ 32 ∷ 216 ∷ 167 ∷ 217 ∷ 132 ∷ 216 ∷ 181 ∷ 217 ∷ 129 ∷ 216 ∷ 173 ∷ 216 ∷ 169 ∷ 33 ∷ 32
    ∷ 216 ∷ 167 ∷ 217 ∷ 132 ∷ 216 ∷ 185 ∷ 217 ∷ 134 ∷ 217 ∷ 136 ∷ 216 ∷ 167 ∷ 217 ∷ 134 ∷ 58 ∷ 32
    ∷ []

-- interrupt.c, line 210.
abbrev pub protection_fault : List ℕ
protection_fault =
    91 ∷ 69 ∷ 82 ∷ 82 ∷ 79 ∷ 82 ∷ 93 ∷ 32 ∷ 216 ∷ 174 ∷ 216 ∷ 183 ∷ 216 ∷ 163 ∷ 32 ∷ 217 ∷ 129 ∷ 217
    ∷ 138 ∷ 32 ∷ 216 ∷ 167 ∷ 217 ∷ 132 ∷ 216 ∷ 173 ∷ 217 ∷ 133 ∷ 216 ∷ 167 ∷ 217 ∷ 138 ∷ 216 ∷ 169
    ∷ 32 ∷ 216 ∷ 167 ∷ 217 ∷ 132 ∷ 216 ∷ 185 ∷ 216 ∷ 167 ∷ 217 ∷ 133 ∷ 216 ∷ 169 ∷ 33 ∷ 10 ∷ []

-- interrupt.c, line 225.
abbrev pub interrupt_number : List ℕ
interrupt_number =
    216 ∷ 177 ∷ 217 ∷ 130 ∷ 217 ∷ 133 ∷ 32 ∷ 216 ∷ 167 ∷ 217 ∷ 132 ∷ 217 ∷ 133 ∷ 217 ∷ 130 ∷ 216
    ∷ 167 ∷ 216 ∷ 183 ∷ 216 ∷ 185 ∷ 216 ∷ 169 ∷ 58 ∷ 32 ∷ []

-- interrupt.c, line 227.
abbrev pub error_code : List ℕ
error_code =
    44 ∷ 32 ∷ 216 ∷ 177 ∷ 217 ∷ 133 ∷ 216 ∷ 178 ∷ 32 ∷ 216 ∷ 167 ∷ 217 ∷ 132 ∷ 216 ∷ 174 ∷ 216 ∷ 183
    ∷ 216 ∷ 163 ∷ 58 ∷ 32 ∷ []
