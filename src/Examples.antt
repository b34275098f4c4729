-- ===== src/Examples.antt =====
-- Concrete inputs: the theorems on the code of src/ at positions, packets and memories that occur.
mod Setting
mod Games
mod Messages
mod Invitations
mod Moves
mod Service
mod Ending
mod Whole
mod Life
