-- ===== src/Tests.antt =====
-- Runs of the models, and the theorems at concrete data, over a small server held in a list.
mod Server
mod Fleet
mod Sort
mod Store
mod Running
mod Recovering
mod Configured
mod Installing
mod Joining
mod Deploying
mod Scaling
mod Autoscaling
mod Certified
mod Calling
mod Filling
mod Launching
mod Serving
mod Racing
mod Starting
mod Expiring
mod Tracking
mod Synchronising
mod Spawning
