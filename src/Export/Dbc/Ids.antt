-- ===== src/Export/Dbc/Ids.antt =====
-- The message identifiers of a DBC file (`dbcId` of libparsex/src/export/dbc_writer.cpp).
use parse_x.Base.{ℕ, ◌^◌, ◌<◌, ◌≤◌, Bool, true, ◌≡◌, ◌↔◌, arith, if◌then◌else◌}
use parse_x.Export.{ExportFrame}
use parse_x.Export.Dbc.{or_flag, dbc_id}

abbrev id_of : Bool → ℕ → ℕ
id_of extended id = if extended then or_flag id else id

id_of-injective :
    (x y : Bool) (i j : ℕ) → i < 2 ^ 31 → j < 2 ^ 31 → id_of x i ≡ id_of y j → (x ≡ y) × (i ≡ j)
id_of-injective x y i j hi hj h = ground arith

id_of-lt :
    (x : Bool) (i : ℕ) → i < 2 ^ 31 → (id_of x i < 2 ^ 32) × ((2 ^ 31 ≤ id_of x i) ↔ (x ≡ true))
id_of-lt x i h = ground arith

-- Frames whose identifiers carry no flag bit have message identifiers below 2 ^ 32 with bit 31 set
-- exactly for an extended frame, and two of them are equal only if the frames agree in identifier
-- and format.
pub dbc_id-injective :
    (a b : ExportFrame)
    → a.id < 2 ^ 31
    → b.id < 2 ^ 31
    → ((dbc_id a < 2 ^ 32) × ((2 ^ 31 ≤ dbc_id a) ↔ (a.extended ≡ true)))
      × (dbc_id a ≡ dbc_id b → (a.extended ≡ b.extended) × (a.id ≡ b.id))
unfolding dbc_id
dbc_id-injective a b ha hb =
    (id_of-lt a.extended a.id ha, λ h. id_of-injective a.extended b.extended a.id b.id ha hb h)
