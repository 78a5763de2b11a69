-- ===== src/Examples.antt =====
-- Runs of the models on small inputs: the theorems at work on concrete frames and streams.
mod Wrapper
mod Llc
mod Hdlc
mod Session
mod Apdu
mod Security
