-- ===== src/Tests.antt =====
-- Runs of the definitions on small inputs, and the theorems at concrete inputs.
mod CatchUp
mod History
mod Ids
mod Inputs
mod Media
mod Fetch
mod Posts
mod Recipes
mod Store
mod Sync
mod Budget
