-- ===== src/Kernel/Messages.antt =====
-- kernel/kernel.c: the messages that are not ASCII, by their UTF-8 bytes.
use os_simple.Base.{ℕ, List, [], ◌∷◌}

-- kernel.c, line 109.
abbrev pub kernel_starting : List ℕ
kernel_starting =
    91 ∷ 75 ∷ 69 ∷ 82 ∷ 78 ∷ 69 ∷ 76 ∷ 93 ∷ 32 ∷ 216 ∷ 168 ∷ 216 ∷ 175 ∷ 216 ∷ 161 ∷ 32 ∷ 216 ∷ 170
    ∷ 216 ∷ 180 ∷ 216 ∷ 186 ∷ 217 ∷ 138 ∷ 217 ∷ 132 ∷ 32 ∷ 216 ∷ 167 ∷ 217 ∷ 132 ∷ 217 ∷ 134 ∷ 217
    ∷ 136 ∷ 216 ∷ 167 ∷ 216 ∷ 169 ∷ 46 ∷ 46 ∷ 46 ∷ 10 ∷ []

-- kernel.c, line 110.
abbrev pub welcome : List ℕ
welcome =
    91 ∷ 75 ∷ 69 ∷ 82 ∷ 78 ∷ 69 ∷ 76 ∷ 93 ∷ 32 ∷ 217 ∷ 133 ∷ 216 ∷ 177 ∷ 216 ∷ 173 ∷ 216 ∷ 168 ∷ 216
    ∷ 167 ∷ 217 ∷ 139 ∷ 32 ∷ 216 ∷ 168 ∷ 217 ∷ 131 ∷ 32 ∷ 217 ∷ 129 ∷ 217 ∷ 138 ∷ 32 ∷ 217 ∷ 134
    ∷ 216 ∷ 184 ∷ 216 ∷ 167 ∷ 217 ∷ 133 ∷ 32 ∷ 216 ∷ 167 ∷ 217 ∷ 132 ∷ 216 ∷ 170 ∷ 216 ∷ 180 ∷ 216
    ∷ 186 ∷ 217 ∷ 138 ∷ 217 ∷ 132 ∷ 32 ∷ 216 ∷ 167 ∷ 217 ∷ 132 ∷ 216 ∷ 168 ∷ 216 ∷ 179 ∷ 217 ∷ 138
    ∷ 216 ∷ 183 ∷ 33 ∷ 10 ∷ 10 ∷ []

-- kernel.c, line 113.
abbrev pub starting_interrupts : List ℕ
starting_interrupts =
    91 ∷ 75 ∷ 69 ∷ 82 ∷ 78 ∷ 69 ∷ 76 ∷ 93 ∷ 32 ∷ 216 ∷ 170 ∷ 217 ∷ 135 ∷ 217 ∷ 138 ∷ 216 ∷ 166 ∷ 216
    ∷ 169 ∷ 32 ∷ 217 ∷ 134 ∷ 216 ∷ 184 ∷ 216 ∷ 167 ∷ 217 ∷ 133 ∷ 32 ∷ 216 ∷ 167 ∷ 217 ∷ 132 ∷ 217
    ∷ 133 ∷ 217 ∷ 130 ∷ 216 ∷ 167 ∷ 216 ∷ 183 ∷ 216 ∷ 185 ∷ 216 ∷ 167 ∷ 216 ∷ 170 ∷ 46 ∷ 46 ∷ 46
    ∷ 10 ∷ []

-- kernel.c, line 129.
abbrev pub starting_tasks : List ℕ
starting_tasks =
    91 ∷ 75 ∷ 69 ∷ 82 ∷ 78 ∷ 69 ∷ 76 ∷ 93 ∷ 32 ∷ 216 ∷ 170 ∷ 217 ∷ 135 ∷ 217 ∷ 138 ∷ 216 ∷ 166 ∷ 216
    ∷ 169 ∷ 32 ∷ 217 ∷ 133 ∷ 216 ∷ 175 ∷ 217 ∷ 138 ∷ 216 ∷ 177 ∷ 32 ∷ 216 ∷ 167 ∷ 217 ∷ 132 ∷ 217
    ∷ 133 ∷ 217 ∷ 135 ∷ 216 ∷ 167 ∷ 217 ∷ 133 ∷ 46 ∷ 46 ∷ 46 ∷ 10 ∷ []

-- kernel.c, line 133.
abbrev pub creating_demo : List ℕ
creating_demo =
    91 ∷ 75 ∷ 69 ∷ 82 ∷ 78 ∷ 69 ∷ 76 ∷ 93 ∷ 32 ∷ 216 ∷ 165 ∷ 217 ∷ 134 ∷ 216 ∷ 180 ∷ 216 ∷ 167 ∷ 216
    ∷ 161 ∷ 32 ∷ 217 ∷ 133 ∷ 217 ∷ 135 ∷ 217 ∷ 133 ∷ 216 ∷ 169 ∷ 32 ∷ 216 ∷ 170 ∷ 216 ∷ 172 ∷ 216
    ∷ 177 ∷ 217 ∷ 138 ∷ 216 ∷ 168 ∷ 217 ∷ 138 ∷ 216 ∷ 169 ∷ 46 ∷ 46 ∷ 46 ∷ 10 ∷ []

-- kernel.c, line 137.
abbrev pub tasks_now : List ℕ
tasks_now =
    10 ∷ 91 ∷ 75 ∷ 69 ∷ 82 ∷ 78 ∷ 69 ∷ 76 ∷ 93 ∷ 32 ∷ 217 ∷ 133 ∷ 216 ∷ 185 ∷ 217 ∷ 132 ∷ 217 ∷ 136
    ∷ 217 ∷ 133 ∷ 216 ∷ 167 ∷ 216 ∷ 170 ∷ 32 ∷ 216 ∷ 167 ∷ 217 ∷ 132 ∷ 217 ∷ 133 ∷ 217 ∷ 135 ∷ 216
    ∷ 167 ∷ 217 ∷ 133 ∷ 32 ∷ 216 ∷ 167 ∷ 217 ∷ 132 ∷ 216 ∷ 173 ∷ 216 ∷ 167 ∷ 217 ∷ 132 ∷ 217 ∷ 138
    ∷ 216 ∷ 169 ∷ 58 ∷ 10 ∷ []

-- kernel.c, line 142.
abbrev pub enabling_interrupts : List ℕ
enabling_interrupts =
    10 ∷ 91 ∷ 75 ∷ 69 ∷ 82 ∷ 78 ∷ 69 ∷ 76 ∷ 93 ∷ 32 ∷ 216 ∷ 170 ∷ 217 ∷ 129 ∷ 216 ∷ 185 ∷ 217 ∷ 138
    ∷ 217 ∷ 132 ∷ 32 ∷ 216 ∷ 167 ∷ 217 ∷ 132 ∷ 217 ∷ 133 ∷ 217 ∷ 130 ∷ 216 ∷ 167 ∷ 216 ∷ 183 ∷ 216
    ∷ 185 ∷ 216 ∷ 167 ∷ 216 ∷ 170 ∷ 46 ∷ 46 ∷ 46 ∷ 10 ∷ []

-- kernel.c, line 145.
abbrev pub kernel_ready : List ℕ
kernel_ready =
    10 ∷ 91 ∷ 75 ∷ 69 ∷ 82 ∷ 78 ∷ 69 ∷ 76 ∷ 93 ∷ 32 ∷ 216 ∷ 167 ∷ 217 ∷ 132 ∷ 217 ∷ 134 ∷ 217 ∷ 136
    ∷ 216 ∷ 167 ∷ 216 ∷ 169 ∷ 32 ∷ 216 ∷ 172 ∷ 216 ∷ 167 ∷ 217 ∷ 135 ∷ 216 ∷ 178 ∷ 216 ∷ 169 ∷ 33
    ∷ 10 ∷ []

-- kernel.c, line 147.
abbrev pub system_running : List ℕ
system_running =
    91 ∷ 73 ∷ 78 ∷ 70 ∷ 79 ∷ 93 ∷ 32 ∷ 216 ∷ 167 ∷ 217 ∷ 132 ∷ 217 ∷ 134 ∷ 216 ∷ 184 ∷ 216 ∷ 167
    ∷ 217 ∷ 133 ∷ 32 ∷ 217 ∷ 138 ∷ 216 ∷ 185 ∷ 217 ∷ 133 ∷ 217 ∷ 132 ∷ 32 ∷ 216 ∷ 167 ∷ 217 ∷ 132
    ∷ 216 ∷ 162 ∷ 217 ∷ 134 ∷ 32 ∷ 217 ∷ 133 ∷ 216 ∷ 185 ∷ 32 ∷ 216 ∷ 175 ∷ 216 ∷ 185 ∷ 217 ∷ 133
    ∷ 32 ∷ 216 ∷ 167 ∷ 217 ∷ 132 ∷ 217 ∷ 133 ∷ 217 ∷ 130 ∷ 216 ∷ 167 ∷ 216 ∷ 183 ∷ 216 ∷ 185 ∷ 216
    ∷ 167 ∷ 216 ∷ 170 ∷ 32 ∷ 217 ∷ 136 ∷ 216 ∷ 167 ∷ 217 ∷ 132 ∷ 217 ∷ 133 ∷ 217 ∷ 135 ∷ 216 ∷ 167
    ∷ 217 ∷ 133 ∷ 10 ∷ []

-- kernel.c, line 148.
abbrev pub press_a_key : List ℕ
press_a_key =
    91 ∷ 73 ∷ 78 ∷ 70 ∷ 79 ∷ 93 ∷ 32 ∷ 216 ∷ 167 ∷ 216 ∷ 182 ∷ 216 ∷ 186 ∷ 216 ∷ 183 ∷ 32 ∷ 216
    ∷ 163 ∷ 217 ∷ 138 ∷ 32 ∷ 217 ∷ 133 ∷ 217 ∷ 129 ∷ 216 ∷ 170 ∷ 216 ∷ 167 ∷ 216 ∷ 173 ∷ 32 ∷ 217
    ∷ 132 ∷ 216 ∷ 167 ∷ 216 ∷ 174 ∷ 216 ∷ 170 ∷ 216 ∷ 168 ∷ 216 ∷ 167 ∷ 216 ∷ 177 ∷ 32 ∷ 217 ∷ 132
    ∷ 217 ∷ 136 ∷ 216 ∷ 173 ∷ 216 ∷ 169 ∷ 32 ∷ 216 ∷ 167 ∷ 217 ∷ 132 ∷ 217 ∷ 133 ∷ 217 ∷ 129 ∷ 216
    ∷ 167 ∷ 216 ∷ 170 ∷ 217 ∷ 138 ∷ 216 ∷ 173 ∷ 10 ∷ []

-- kernel.c, line 151.
abbrev pub testing_memory : List ℕ
testing_memory =
    10 ∷ 61 ∷ 61 ∷ 61 ∷ 32 ∷ 216 ∷ 167 ∷ 216 ∷ 174 ∷ 216 ∷ 170 ∷ 216 ∷ 168 ∷ 216 ∷ 167 ∷ 216 ∷ 177
    ∷ 32 ∷ 216 ∷ 165 ∷ 216 ∷ 175 ∷ 216 ∷ 167 ∷ 216 ∷ 177 ∷ 216 ∷ 169 ∷ 32 ∷ 216 ∷ 167 ∷ 217 ∷ 132
    ∷ 216 ∷ 176 ∷ 216 ∷ 167 ∷ 217 ∷ 131 ∷ 216 ∷ 177 ∷ 216 ∷ 169 ∷ 32 ∷ 61 ∷ 61 ∷ 61 ∷ 10 ∷ []

-- kernel.c, line 158.
abbrev pub blocks_allocated : List ℕ
blocks_allocated =
    216 ∷ 170 ∷ 217 ∷ 133 ∷ 32 ∷ 216 ∷ 170 ∷ 216 ∷ 174 ∷ 216 ∷ 181 ∷ 217 ∷ 138 ∷ 216 ∷ 181 ∷ 32 ∷ 51
    ∷ 32 ∷ 217 ∷ 131 ∷ 216 ∷ 170 ∷ 217 ∷ 132 ∷ 32 ∷ 216 ∷ 176 ∷ 216 ∷ 167 ∷ 217 ∷ 131 ∷ 216 ∷ 177
    ∷ 216 ∷ 169 ∷ 10 ∷ []

-- kernel.c, line 163.
abbrev pub second_block_freed : List ℕ
second_block_freed =
    10 ∷ 216 ∷ 170 ∷ 217 ∷ 133 ∷ 32 ∷ 216 ∷ 170 ∷ 216 ∷ 173 ∷ 216 ∷ 177 ∷ 217 ∷ 138 ∷ 216 ∷ 177 ∷ 32
    ∷ 216 ∷ 167 ∷ 217 ∷ 132 ∷ 217 ∷ 131 ∷ 216 ∷ 170 ∷ 217 ∷ 132 ∷ 216 ∷ 169 ∷ 32 ∷ 216 ∷ 167 ∷ 217
    ∷ 132 ∷ 216 ∷ 171 ∷ 216 ∷ 167 ∷ 217 ∷ 134 ∷ 217 ∷ 138 ∷ 216 ∷ 169 ∷ 10 ∷ []
